-- ===== src/Scripts/Templates/Shape.antt =====
-- `SampleLabel` and `Sample` of scripts/templates.py.
use report_insight.Base.{String, Bool, List, Text, codes}
use report_insight.Domain.{Category, Urgency}

pub record SampleLabel : Type 0 where
  pub category : Category
  pub urgency : Urgency
  pub action_required : Bool

pub record Sample : Type 0 where
  pub raw_text : Text
  pub reporter_role : String
  pub label : SampleLabel
  pub tags : List String
  pub summary : Text

-- `Sample(raw_text, reporter_role, SampleLabel(...), tags=..., summary=...)`
abbrev pub sample : String → String → Category × (Urgency × Bool) → List String → String → Sample
sample raw_text reporter_role (category, (urgency, action_required)) tags summary = record {
  raw_text = codes raw_text;
  reporter_role = reporter_role;
  label = record { category = category; urgency = urgency; action_required = action_required };
  tags = tags;
  summary = codes summary;
}
