-- ===== src/Scripts/Templates.antt =====
-- scripts/templates.py: the sample reports of the demonstration and the evaluation.
use report_insight.Base.{List, ◌++◌}
pub mod Shape
pub mod Urgent
pub mod Failures
pub mod Cleaning
pub mod Claims
pub mod Others
use report_insight.Scripts.Templates.Shape.{Sample}
use report_insight.Scripts.Templates.Urgent.{urgent_failures}
use report_insight.Scripts.Templates.Failures.{failures}
use report_insight.Scripts.Templates.Cleaning.{cleaning_reports}
use report_insight.Scripts.Templates.Claims.{claims}
use report_insight.Scripts.Templates.Others.{others}

-- `TEMPLATES`
unfoldable pub templates : List Sample
unfolding urgent_failures failures cleaning_reports claims others
templates = urgent_failures ++ (failures ++ (cleaning_reports ++ (claims ++ others)))
