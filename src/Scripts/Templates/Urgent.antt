-- ===== src/Scripts/Templates/Urgent.antt =====
-- `TEMPLATES` of scripts/templates.py: failures of equipment that are urgent.
use report_insight.Base.{List, [], ◌∷◌, true}
use report_insight.Domain.{equipment_failure, high}
use report_insight.Scripts.Templates.Shape.{Sample, sample}

unfoldable pub urgent_failures : List Sample
urgent_failures =
    sample
      "3階廊下の天井から水漏れが発生。天井材に直径30cmほどのシミがあり、床への滴下も確認しました。バケツを設置し、通行部分にカラーコーンで注意喚起を行っています。上階の給水管が原因と思われます。至急、設備業者の手配をお願いします。"
      "巡回スタッフ" (equipment_failure, (high, true)) ("urgent" ∷ [])
      "3F廊下天井から水漏れ。床への滴下あり。バケツ設置・通行規制で応急対応済み。設備業者の至急手配が必要。"
    ∷ sample "三階の廊下で漏水を確認。バケツで受けています。詳しい原因はまだ分かっていません。念のため下階の住戸にも影響がないか確認する予定です。" "清掃員"
        (equipment_failure, (high, true)) ("urgent" ∷ "notation" ∷ [])
        "3F廊下で漏水。バケツで受け中。原因未特定、下階への影響を確認予定。"
    ∷ sample
        "エントランスの自動ドアが停止し、開閉しなくなりました。センサーは反応しているようですが扉が動きません。現在は手動で開放した状態にしており、入居者の出入りに支障が出ています。防犯上も好ましくないため早急な対応を希望します。"
        "管理員" (equipment_failure, (high, true)) ("urgent" ∷ [])
        "エントランス自動ドアが停止し開閉不可。手動開放で対応中だが防犯上の懸念あり。早急な修理が必要。"
    ∷ sample
        "3号機エレベーターが5階で停止しました。閉じ込めはありません。保守会社へ連絡し、技術者が約40分後に到着。制御盤のリレー交換を実施して復旧しました。現在は通常運転に戻っています。同型のリレーは経年劣化が進んでいるとの指摘を受けました。"
        "管理員" (equipment_failure, (high, true)) ("urgent" ∷ [])
        "EV3号機が5階で停止（閉じ込めなし）。制御盤リレー交換で復旧済み。同型リレーの経年劣化を指摘され、予防交換の検討要。"
    ∷ sample
        "エレベーター内に入居者1名が閉じ込められました。インターホンで応答を確認し、保守会社の到着まで声かけを継続しました。約20分で救出、けがはありません。救出後に本人へお詫びし、体調に問題ないことを確認済みです。原因は戸開閉装置の誤検知とのことです。"
        "管理員" (equipment_failure, (high, true)) ("urgent" ∷ [])
        "EV閉じ込め発生（1名・約20分）。声かけ継続のうえ救出、けがなし。原因は戸開閉装置の誤検知。入居者への謝罪済み。"
    ∷ sample
        "屋上でガス臭を感知しました。火災の危険があるため、屋上への立入を制限しています。ガス会社へ緊急連絡済みで、係員が向かっています。念のため最上階の入居者にも注意喚起を行いました。"
        "巡回スタッフ" (equipment_failure, (high, true)) ("urgent" ∷ [])
        "屋上でガス臭を感知。火災リスクあり。立入制限・ガス会社へ緊急連絡・最上階入居者へ注意喚起を実施済み。"
    ∷ sample "機械室のブレーカー付近から発煙と焦げ臭を確認しました。ただちに主幹ブレーカーを遮断しています。現在、当該系統は停電状態です。電気工事業者の至急手配が必要です。" "点検員"
        (equipment_failure, (high, true)) ("urgent" ∷ [])
        "機械室ブレーカー付近から発煙・焦げ臭。主幹ブレーカー遮断済みで当該系統は停電中。電気工事業者の至急手配が必要。"
    ∷ sample
        "地下駐車場で漏水を確認しました。天井配管の継手部分から水が滴下しています。駐車中の車両2台に水がかかる位置だったため、所有者へ連絡し移動していただきました。バルブを閉止して一旦停止しています。"
        "管理員" (equipment_failure, (high, true)) ("urgent" ∷ [])
        "地下駐車場の天井配管継手から漏水。車両2台を退避、バルブ閉止で一旦停止。継手の本修理が必要。"
    ∷ sample "共用部の消防設備点検中に、屋内消火栓のポンプが起動しない不具合を発見しました。消防法上の重大な不備にあたるため、消防設備士による緊急点検を手配しています。" "点検員"
        (equipment_failure, (high, true)) ("urgent" ∷ [])
        "屋内消火栓ポンプが起動しない不具合を点検中に発見。消防法上の重大な不備のため消防設備士の緊急点検を手配済み。"
    ∷ []
