-- ===== src/Scripts/Templates/Cleaning.antt =====
-- `TEMPLATES` of scripts/templates.py: cleaning.
use report_insight.Base.{List, [], ◌∷◌, false}
use report_insight.Domain.{Category, low}
use report_insight.Scripts.Templates.Shape.{Sample, sample}

unfoldable pub cleaning_reports : List Sample
cleaning_reports =
    sample "共用部の廊下にゴミの散乱がありました。空き缶とレジ袋が中心です。清掃を実施し、現在は解消しています。特定の階に集中しているため、掲示での注意喚起を検討します。" "清掃員"
      (Category.cleaning, (low, false)) ([]) "共用廊下にゴミ散乱（空き缶・レジ袋）。清掃実施により解消。特定階に集中しており掲示での注意喚起を検討。"
    ∷ sample "駐車場の落ち葉が多く、入居者から定期清掃の頻度を上げてほしいとの要望がありました。落葉の時期のみ隔週から週1回へ変更する案を検討しています。" "管理員"
        (Category.cleaning, (low, false)) ([]) "駐車場の落ち葉に対し清掃頻度増の要望。落葉期のみ隔週→週1回への変更を検討中。"
    ∷ sample "敷地内の側溝が落ち葉で詰まり、排水不良を起こしていました。清掃を実施して流れは改善しています。降雨前の点検を定例に加えたいです。" "清掃員"
        (Category.cleaning, (low, false)) ([]) "敷地内側溝が落ち葉で詰まり排水不良。清掃により改善。降雨前点検の定例化を提案。"
    ∷ sample "1階の集合ポスト付近に落書きを発見しました。スプレーによるもので範囲は約50cmです。専門の清掃業者へ除去を依頼しました。防犯カメラの映像も確認予定です。" "管理員"
        (Category.cleaning, (low, false)) ([]) "1F集合ポスト付近にスプレー落書き（約50cm）。清掃業者へ除去依頼済み、防犯カメラ映像を確認予定。"
    ∷ sample "ゴミ集積所の分別が守られておらず、資源ゴミに生ゴミが混入していました。回収業者から指摘を受けています。分別ルールの掲示を更新しました。" "清掃員"
        (Category.cleaning, (low, false)) ([]) "ゴミ集積所で分別違反（資源ゴミに生ゴミ混入）。回収業者から指摘あり。分別ルールの掲示を更新。"
    ∷ sample "植栽帯の雑草が繁茂しています。美観の低下が目立つため、除草作業を実施しました。次回は梅雨明けの時期に予定しています。" "清掃員"
        (Category.cleaning, (low, false)) ([]) "植栽帯の雑草繁茂により美観低下。除草作業を実施済み。次回は梅雨明けに予定。"
    ∷ []
