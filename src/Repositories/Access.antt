-- ===== src/Repositories/Access.antt =====
-- What membership in `permitted_property_ids` means.
use report_insight.Base.{
  ℕ, ◌==◌, ◌≡◌, ◌⊎◌, inl, inr, true, Option, none, some, List, [], ◌∷◌, map, filter, elem, Any,
  arith, Bool-cases,
}
use report_insight.Domain.{User, is_qa}
use report_insight.Db.{PropertyRow, World}
use report_insight.Db.Table.{contains}
use report_insight.Repositories.User.{in_branch, visible_properties, permitted_property_ids}

abbrev pub property_key : PropertyRow → ℕ
property_key r = r.id

-- A property with this id that the user may see: any one for the quality department, one of the
-- own branch for everybody else.
abbrev pub Visible : User → ℕ → PropertyRow → Type 0
Visible user p row = (row.id ≡ p) × ((is_qa user ≡ true) ⊎ (user.branch_id ≡ some row.branch_id))

all_visible :
    (user : User) (p : ℕ) (rows : List PropertyRow)
    → is_qa user ≡ true
    → elem p (map property_key rows) ≡ true
    → Any (Visible user p) rows
all_visible user p [] q h = absurd (ground arith)
all_visible user p (r ∷ rows) q h = elim (Bool-cases (p == r.id)) [
  | inl e ↦ inl (ground arith, inl q)
  | inr e ↦ inr (all_visible user p rows q (ground arith))
]

in_branch-some : (o : Option ℕ) (r : PropertyRow) → in_branch o r ≡ true → o ≡ some r.branch_id
unfolding in_branch
in_branch-some none r h = ground arith
in_branch-some (some b) r h = ground arith

branch_visible :
    (user : User) (p : ℕ) (rows : List PropertyRow)
    → elem p (map property_key (filter (in_branch user.branch_id) rows)) ≡ true
    → Any (Visible user p) rows
branch_visible user p [] h = absurd (ground arith)
branch_visible user p (r ∷ rows) h = elim (Bool-cases (in_branch user.branch_id r)) [
  | inr out ↦ inr (branch_visible user p rows (rw out at h))
  | inl own ↦ elim (Bool-cases (p == r.id)) [
    | inl e ↦ inl (ground arith, inr (in_branch-some user.branch_id r own))
    | inr e ↦ inr (branch_visible user p rows (ground arith))
  ]
]

-- Every permitted id is that of a property which the user may see.
pub permitted_visible :
    (user : User) (p : ℕ) (w : World)
    → elem p (permitted_property_ids user w) ≡ true
    → Any (Visible user p) w.db.properties
unfolding permitted_property_ids visible_properties
permitted_visible user p w h = elim (Bool-cases (is_qa user)) [
  | inl q ↦ all_visible user p w.db.properties q (rw q at h)
  | inr b ↦ branch_visible user p w.db.properties (rw b at h)
]

visible-contains :
    (user : User) (p : ℕ) (rows : List PropertyRow)
    → Any (Visible user p) rows
    → contains property_key p rows ≡ true
unfolding contains
visible-contains user p [] h = absurd h
visible-contains user p (r ∷ rows) (inl h) = ground arith
visible-contains user p (r ∷ rows) (inr h) = ground (arith, visible-contains user p rows h)

-- A permitted property exists, so that the foreign key of a new row holds.
pub permitted-contains :
    (user : User) (p : ℕ) (w : World)
    → elem p (permitted_property_ids user w) ≡ true
    → contains property_key p w.db.properties ≡ true
permitted-contains user p w h =
    visible-contains user p w.db.properties (permitted_visible user p w h)
