-- ===== src/Api/AuditUi.antt =====
-- app/api/routers/audit_ui.py: the readable form of what is logged, and the rows of the screen. Python's
-- `int`, whose argument here has no minus sign, and its `str` of a value that is no number and no text
-- are parameters.
use report_insight.Base.{
  ℕ, Bool, Option, none, some, String, str_eq, List, [], ◌∷◌, ◌++◌, map, Text, codes, take, ℤ,
  if◌then◌else◌,
}
use mathlib.Core.Option.{bind}
use report_insight.Base.Str.{decimal}
use report_insight.Base.Dict.{text_eq}
use report_insight.Domain.{
  Json, Fields, end, field, get_field, truthy, category_value, categories, urgency_value, urgencies,
  AuditEntry, Datetime, User, AuditAction, audit_action_value,
}
use report_insight.Domain.Json.{num, str, text, bool}
use report_insight.Domain.Labels.{category_jp, urgency_jp}
use report_insight.Db.{Exec, pure, ◌>>=◌}
use report_insight.Repositories.Audit.{list_recent}
use report_insight.Infra.Llm.Summaries.{split_on}
use report_insight.Api.UiShared.{resolve_user, all_users}
pub mod Readable
pub mod Newest

abbrev text_of : Json → Option Text
text_of (str s) = some (codes s)
text_of (text t) = some t
text_of _ = none

-- `Category(value)`: the first member that has this value. `none` stands for the `ValueError`.
unfoldable pub member_of : {A : Type 0} → (A → String) → List A → Text → Option A
unfolding text_eq
member_of value [] t = none
member_of value (a ∷ members) t =
    if text_eq (codes (value a)) t then some a else member_of value members t

abbrev pub action_text : Option Json → Text
action_text none = codes "対応不要"
action_text (some v) = if truthy v then codes "要対応" else codes "対応不要"

-- The text of an override, for what its payload holds
abbrev pub override_text : Text → Text → Text → Text → Text
override_text report_id category urgency action =
    codes "報告書 #"
    ++ (report_id
        ++ (codes "を「"
            ++ (category
                ++ (codes "・緊急度 " ++ (urgency ++ (codes "・" ++ (action ++ codes "」に確定")))))))

abbrev pub approval_text : Text → ℕ → ℕ → Text → Text
approval_text property_id year month version =
    codes "物件 #"
    ++ (property_id
        ++ (codes " の "
            ++ (decimal year
                ++ (codes "年" ++ (decimal month ++ (codes "月分（v" ++ (version ++ codes "）を確定")))))))

-- `year, month = parts`
abbrev pub two_of : List Text → Option (Text × Text)
two_of (a ∷ b ∷ []) = some (a, b)
two_of _ = none

module _ (show : Json → Text) (to_int : Text → Option ℕ) where
  -- `str(value)`
  abbrev pub shown : Json → Text
  shown (num n) = decimal n
  shown (str s) = codes s
  shown (text t) = t
  shown v = show v

  -- In the next three, none is a `KeyError` or a `ValueError`.
  unfoldable pub format_override : Fields → Option Text
  unfolding get_field truthy category_jp urgency_jp bind member_of
  format_override payload = bind (bind (get_field "category" payload) text_of) λ c.
      bind (member_of category_value categories c) λ category.
        bind (bind (get_field "urgency" payload) text_of) λ u.
          bind (member_of urgency_value urgencies u) λ urgency.
            bind (get_field "report_id" payload) λ report_id. some (
              override_text (shown report_id) (category_jp category) (urgency_jp urgency)
                (action_text (get_field "action_required" payload)))

  unfoldable pub format_approval : Fields → Option Text
  unfolding get_field split_on bind
  format_approval payload = bind (get_field "month" payload) λ m.
      bind (two_of (split_on b'-' (take 7 (shown m)))) λ (y, mo).
        bind (get_field "property_id" payload) λ property_id. bind (to_int y) λ year.
          bind (to_int mo) λ month.
            bind (get_field "version" payload)
              λ version. some (approval_text (shown property_id) year month (shown version))

  unfoldable pub format_search : Fields → Option Text
  unfolding get_field bind
  format_search payload =
      bind (get_field "query" payload)
        λ query. some (codes "「" ++ (shown query ++ codes "」で過去事例を検索"))

  -- `" / ".join(f"{k}={v}" for k, v in payload.items())`
  unfoldable pub raw_text_of : Fields → Text
  raw_text_of end = []
  raw_text_of (field k v end) = codes k ++ 61 ∷ shown v
  raw_text_of (field k v (field l w rest)) =
      (codes k ++ 61 ∷ shown v) ++ (codes " / " ++ raw_text_of (field l w rest))

  abbrev pub or_raw : Fields → Option Text → Text
  or_raw payload none = raw_text_of payload
  or_raw payload (some t) = t

  -- `_format_payload`
  unfoldable pub format_payload : AuditAction → Fields → Text
  unfolding format_override format_approval format_search raw_text_of
  format_payload AuditAction.override_analysis payload = or_raw payload (format_override payload)
  format_payload AuditAction.approve_monthly payload = or_raw payload (format_approval payload)
  format_payload AuditAction.search payload = or_raw payload (format_search payload)

  pub record AuditItem : Type 0 where
    pub created_at : Datetime
    pub actor_email : String
    pub action_label : Text
    pub detail : Text

  -- `ACTION_LABELS`
  unfoldable pub action_label_of : AuditAction → Text
  action_label_of AuditAction.override_analysis = codes "分類の上書き"
  action_label_of AuditAction.approve_monthly = codes "月次報告書の承認"
  action_label_of AuditAction.search = codes "検索"

  unfoldable pub item_of : AuditEntry → AuditItem
  unfolding format_payload action_label_of
  item_of e = record {
    created_at = e.created_at;
    actor_email = e.actor_email;
    action_label = action_label_of e.action;
    detail = format_payload e.action e.payload;
  }

  -- `audit_home`, with `AUDIT_LIMIT`: the user, the users and the rows of the template
  unfoldable pub audit_home : ℤ → Exec (User × (List User × List AuditItem))
  unfolding item_of
  audit_home uid = do
    user ← resolve_user uid
    entries ← list_recent 100
    users ← all_users
    pure (user, (users, map item_of entries))
