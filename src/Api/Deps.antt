-- ===== src/Api/Deps.antt =====
-- `get_current_user` of app/api/deps.py.
use report_insight.Base.{
  ℕ, String, ◌≡◌, ◌⊎◌, refl, inl, inr, Option, none, some, ℤ, pos, negsuc, arith, Option-cases,
}
use report_insight.Domain.{User, Error, unauthenticated, not_found, value_error, ok, err, role_of}
use report_insight.Db.{World, UserRow, Exec, raise, catch, user_to_domain}
use report_insight.Db.Table.{find_by}
use report_insight.Repositories.User

-- The ids of the table are not negative.
abbrev pub get_signed : ℤ → Exec User
get_signed (pos id) = User.get id
get_signed (negsuc _) = raise not_found

-- `except NotFoundError`: another exception goes on.
abbrev pub or_unauthenticated : Error → Exec User
or_unauthenticated not_found = raise unauthenticated
or_unauthenticated e = raise e

-- `int` of the header, where it raises no `ValueError`, is the parameter `to_int`.
unfoldable pub get_current_user : (String → Option ℤ) → Option String → Exec User
get_current_user to_int none = raise unauthenticated
get_current_user to_int (some x_user_id) = elim (to_int x_user_id) [
  | none ↦ raise unauthenticated
  | some user_id ↦ catch (get_signed user_id) or_unauthenticated
]

-- The header holds the id of a row that decodes to this user.
abbrev pub Names : (String → Option ℤ) → Option String → World → User → Type 0
Names to_int header w user =
    (x : String) × (id : ℕ) × (row : UserRow) × (header ≡ some x)
    × (to_int x ≡ some (pos id))
    × (find_by (λ (r : UserRow). r.id) id w.db.users ≡ some row)
    × (user_to_domain row ≡ ok user)

-- Authentication ends in one of three ways and changes nothing: the user is the one whose id the
-- header holds; or the request is rejected as unauthenticated, whatever the header holds; or the
-- user's row has a role that does not exist.
pub get_current_user_cases :
    (to_int : String → Option ℤ) (header : Option String) (w : World)
    → ((get_current_user to_int header w).1 ≡ w)
      × (((user : User) × ((get_current_user to_int header w).0 ≡ ok user)
            × Names to_int header w user)
          ⊎ (((get_current_user to_int header w).0 ≡ err unauthenticated)
              ⊎ ((get_current_user to_int header w).0 ≡ err value_error)))
unfolding get_current_user User.get user_to_domain
get_current_user_cases to_int none w = (refl, inr (inl refl))
get_current_user_cases to_int (some x) w = elim (Option-cases (to_int x)) [
  | inl e ↦ (ground arith, inr (inl (ground arith)))
  | inr (negsuc n, e) ↦ (ground arith, inr (inl (ground arith)))
  | inr (pos id, e) ↦ elim (Option-cases (find_by (λ (r : UserRow). r.id) id w.db.users)) [
    | inl missing ↦ (ground arith, inr (inl (ground arith)))
    | inr (row, found) ↦ elim (Option-cases (role_of row.role)) [
      | inl unknown ↦ (ground arith, inr (inr (ground arith)))
      | inr (role, known) ↦
          let user : User = record {
            id = row.id;
            email = row.email;
            role = role;
            branch_id = row.branch_id;
          } in
          (ground arith, inl (user, ground arith, (x, id, row, refl, e, found, ground arith)))
    ]
  ]
]
