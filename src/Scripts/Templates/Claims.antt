-- ===== src/Scripts/Templates/Claims.antt =====
-- `TEMPLATES` of scripts/templates.py: claims and wishes.
use report_insight.Base.{List, [], ◌∷◌, true, false}
use report_insight.Domain.{Category, medium, low}
use report_insight.Scripts.Templates.Shape.{Sample, sample}

unfoldable pub claims : List Sample
claims =
    sample
      "上階の騒音について入居者から苦情がありました。夜間23時以降の足音がうるさいとのことです。該当住戸へ口頭で申し入れを行い、生活音への配慮をお願いしました。改善が見られない場合は文書での通知を検討します。"
      "管理員" (Category.claim, (medium, true)) ([])
      "上階の夜間騒音（23時以降の足音）について苦情。該当住戸へ口頭申し入れ済み。改善なき場合は文書通知を検討。"
    ∷ sample "601号室からの生活騒音について、階下の入居者より苦情が寄せられました。深夜の洗濯機使用が原因のようです。両者から事情を伺い、使用時間の調整をお願いしています。"
        "管理員" (Category.claim, (medium, true)) ([]) "601号室の深夜洗濯機使用について階下より騒音苦情。双方から聴取し使用時間の調整を依頼済み。"
    ∷ sample "オーナーより外壁の美観について要望がありました。北面の汚れが目立つとのご指摘です。次回の打ち合わせで洗浄工事の見積もりを提示する予定です。" "営業担当"
        (Category.claim, (low, false)) ([]) "オーナーより外壁北面の汚れについて美観改善の要望。次回打合せで洗浄工事の見積もりを提示予定。"
    ∷ sample "植木の枝が隣地へ越境しているとの苦情を近隣の方からいただきました。現地を確認し、越境を認めましたので剪定を手配します。近隣へは謝罪済みです。" "管理員"
        (Category.claim, (medium, true)) ([]) "植木の越境について近隣から苦情。越境を確認し剪定を手配、近隣への謝罪済み。"
    ∷ sample "駐輪場の不法駐輪について複数の入居者から苦情が出ています。ラックの空きがない状態が続いており、増設の要望も併せて受けています。警告札の貼付を開始しました。" "管理員"
        (Category.claim, (medium, true)) ([]) "駐輪場の不法駐輪について複数の苦情。ラック満杯で増設要望も。警告札の貼付を開始。"
    ∷ sample "共用部の照明が暗いという要望が入居者から寄せられました。特に地下駐車場からの動線が暗く不安とのことです。照度測定を行い、増設の検討を進めます。" "管理員"
        (Category.claim, (low, false)) ([]) "共用部の照明が暗いとの要望。特に地下駐車場からの動線に不安の声。照度測定のうえ増設を検討。"
    ∷ sample "ペットの飼育マナーについて苦情がありました。共用部でのリードなし歩行が見られるとのことです。規約の該当箇所を掲示し、全戸へ配布物で周知します。" "管理員"
        (Category.claim, (medium, true)) ([]) "共用部でのペットのリードなし歩行にマナー苦情。規約の掲示と全戸配布による周知を実施。"
    ∷ sample "入居者の田中太郎様より、電話 090-1234-5678 で連絡ありとのこと。折り返し希望です。内容は更新契約の条件についてのご相談とのことでした。" "管理員"
        (Category.claim, (medium, true)) ("pii" ∷ []) "入居者より更新契約の条件について相談の連絡あり。折り返し対応が必要。"
    ∷ []
