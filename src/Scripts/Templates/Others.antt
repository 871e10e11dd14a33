-- ===== src/Scripts/Templates/Others.antt =====
-- `TEMPLATES` of scripts/templates.py: inspections and reports that say too little.
use report_insight.Base.{List, [], ◌∷◌, false}
use report_insight.Domain.{Category, low}
use report_insight.Scripts.Templates.Shape.{Sample, sample}

unfoldable pub others : List Sample
others =
    sample "エレベーターの法定点検を実施しました。異常はありません。次回は3か月後の予定です。点検報告書は管理事務所に保管しています。" "点検員"
      (Category.other, (low, false)) ([]) "EVの法定点検を実施、異常なし。次回は3か月後、報告書は管理事務所に保管。"
    ∷ sample "月次の定期点検を実施しました。共用部・設備ともに異常はありません。指摘事項なし。次回は翌月同日を予定しています。" "点検員"
        (Category.other, (low, false)) ([]) "月次定期点検を実施。共用部・設備ともに異常なし、指摘事項なし。次回は翌月同日。"
    ∷ sample "受電設備の月次点検で、軽微な絶縁低下の指摘を受けました。ただちに影響が出る水準ではありませんが、経過観察として次回点検で再測定します。" "点検員"
        (Category.other, (low, false)) ([]) "受電設備の月次点検で軽微な絶縁低下を指摘。即時影響はなく、次回点検で再測定し経過観察。"
    ∷ sample "防災訓練を実施しました。参加者は入居者32名です。避難経路の確認と消火器の取扱説明を行いました。次回は半年後を予定しています。" "管理員"
        (Category.other, (low, false)) ([]) "防災訓練を実施（入居者32名参加）。避難経路の確認と消火器の取扱説明を実施。次回は半年後。"
    ∷ sample "なんか変。よくわからないけど気になる。" "巡回スタッフ" (Category.other, (low, false))
        ("badtext" ∷ "low_confidence" ∷ []) "内容が不明瞭で判断できません。報告者への確認が必要です。"
    ∷ sample "状況不明。詳細は曖昧だが後で確認する。" "清掃員" (Category.other, (low, false)) ("low_confidence" ∷ [])
        "詳細が不明のため判断保留。後日の確認待ちです。"
    ∷ []
