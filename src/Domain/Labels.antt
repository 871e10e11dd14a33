-- ===== src/Domain/Labels.antt =====
-- app/domain/labels.py: the Japanese labels. The functions are total, which is what
-- `_assert_exhaustive` checks of the source's dictionaries when the module is loaded.
use report_insight.Base.{Text, codes}
use report_insight.Domain.{
  Category, cleaning, equipment_failure, claim, Urgency, high, medium, low, AnalysisStatus,
  processing, auto_classified, needs_review, human_verified, MonthlyStatus, generating, draft,
  approved, Role, branch_manager, qa,
}

unfoldable pub category_jp : Category → Text
category_jp cleaning = codes "清掃"
category_jp equipment_failure = codes "設備不具合"
category_jp claim = codes "苦情・要望"
category_jp Category.other = codes "その他"

unfoldable pub urgency_jp : Urgency → Text
urgency_jp high = codes "高"
urgency_jp medium = codes "中"
urgency_jp low = codes "低"

unfoldable pub analysis_status_jp : AnalysisStatus → Text
analysis_status_jp processing = codes "処理中"
analysis_status_jp auto_classified = codes "AI分析済"
analysis_status_jp needs_review = codes "未分類（要確認）"
analysis_status_jp human_verified = codes "人間確認済"
analysis_status_jp AnalysisStatus.failed = codes "処理失敗"

unfoldable pub monthly_status_jp : MonthlyStatus → Text
monthly_status_jp generating = codes "作成中"
monthly_status_jp draft = codes "ドラフト（編集できます）"
monthly_status_jp approved = codes "承認済み（確定）"
monthly_status_jp MonthlyStatus.failed = codes "作成に失敗"

unfoldable pub role_jp : Role → Text
role_jp branch_manager = codes "支店管理者"
role_jp qa = codes "本社品質管理部"
