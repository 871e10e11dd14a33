-- ===== src/Repositories/User.antt =====
-- `SqlUserRepository`, and `SqlSearchRepository.permitted_property_ids`, which reads the same rows.
use report_insight.Base.{ℕ, ◌==◌, Bool, false, Option, none, some, List, map, filter, if◌then◌else◌}
use mathlib.Core.List.{reverse}
use report_insight.Domain.{User, is_qa, Property, not_found}
use report_insight.Db.Table.{find_by, order_by_desc}
use report_insight.Db.{
  UserRow, PropertyRow, traverse, user_to_domain, property_to_domain, World, Exec, lift, gets,
  or_raise, pure, ◌>>=◌,
}

unfoldable pub get : ℕ → Exec User
unfolding find_by user_to_domain
get user_id = do
  found ← gets (λ w. find_by (λ (r : UserRow). r.id) user_id w.db.users)
  row ← or_raise found not_found
  lift (user_to_domain row)

-- `ORDER BY users.id`: the ids are distinct.
unfoldable pub list_all : Exec (List User)
unfolding order_by_desc traverse user_to_domain
list_all = do
  rows ← gets (λ w. reverse (order_by_desc (λ (r : UserRow). r.id) w.db.users))
  lift (traverse user_to_domain rows)

-- `branch_id == NULL` holds of no row.
unfoldable pub in_branch : Option ℕ → PropertyRow → Bool
in_branch none row = false
in_branch (some b) row = row.branch_id == b

unfoldable pub visible_properties : User → World → List PropertyRow
unfolding in_branch
visible_properties user w =
    if is_qa user then w.db.properties else filter (in_branch user.branch_id) w.db.properties

unfoldable pub list_properties : User → Exec (List Property)
unfolding visible_properties property_to_domain
list_properties user = do rows ← gets (visible_properties user); pure (map property_to_domain rows)

unfoldable pub permitted_property_ids : User → World → List ℕ
unfolding visible_properties
permitted_property_ids user w = map (λ (r : PropertyRow). r.id) (visible_properties user w)
