-- ===== src/Scripts/SeedDemo/Seeded.antt =====
-- What the base data of the demonstration leave.
use report_insight.Base.{◌≡◌, true, All, All-imp, arith}
use report_insight.Domain.{ok}
use report_insight.Db.Table.{contains}
use report_insight.Db.{World, BranchRow, PropertyRow, UserRow, unit_of_work}
use report_insight.Repositories.Monthly.{property_key}
use report_insight.Scripts.Synth.{branches, properties, users}
use report_insight.Scripts.SeedDemo.Statements.{for_each-kept, for_each-All, for_each-again}
use report_insight.Scripts.SeedDemo.{
  branch_key, user_key, for_each, insert_branch, insert_property, insert_user, ensure_base_data,
}

abbrev HasBranch : BranchRow → World → Type 0
HasBranch r w = contains branch_key r.id w.db.branches ≡ true

abbrev HasProperty : PropertyRow → World → Type 0
HasProperty r w = contains property_key r.id w.db.properties ≡ true

abbrev HasUser : UserRow → World → Type 0
HasUser r w = contains user_key r.id w.db.users ≡ true

HasBranch-insert : (r : BranchRow) (w : World) → HasBranch r (insert_branch r w).1
unfolding insert_branch contains
HasBranch-insert r w = ground arith

HasProperty-insert :
    (r : PropertyRow) (w : World)
    → (insert_property r w).0 ≡ ok tt
    → HasProperty r (insert_property r w).1
unfolding insert_property contains
HasProperty-insert r w h = ground arith

HasUser-insert :
    (r : UserRow) (w : World) → (insert_user r w).0 ≡ ok tt → HasUser r (insert_user r w).1
unfolding insert_user contains
HasUser-insert r w h = ground arith

-- What the three statements leave, if they succeed, and what they do where it is there.
pub record IsSeeded (w : World) : Type 0 where
  pub has_branches : All (λ r. HasBranch r w) branches
  pub has_properties : All (λ r. HasProperty r w) properties
  pub has_users : All (λ r. HasUser r w) users

kept_branch :
    (b : BranchRow) (p : PropertyRow) (w : World)
    → HasBranch b w
    → HasBranch b (insert_property p w).1
unfolding insert_property
kept_branch b p w h = ground arith

kept_branch_too :
    (b : BranchRow) (u : UserRow) (w : World) → HasBranch b w → HasBranch b (insert_user u w).1
unfolding insert_user
kept_branch_too b u w h = ground arith

kept_property :
    (p : PropertyRow) (u : UserRow) (w : World)
    → HasProperty p w
    → HasProperty p (insert_user u w).1
unfolding insert_user
kept_property p u w h = ground arith

again_branch : (r : BranchRow) (w : World) → HasBranch r w → insert_branch r w ≡ (ok tt, w)
unfolding insert_branch
again_branch r w h = ground arith

again_property : (r : PropertyRow) (w : World) → HasProperty r w → insert_property r w ≡ (ok tt, w)
unfolding insert_property
again_property r w h = ground arith

again_user : (r : UserRow) (w : World) → HasUser r w → insert_user r w ≡ (ok tt, w)
unfolding insert_user
again_user r w h = ground arith

keeps_branch : (s r : BranchRow) (w : World) → HasBranch s w → HasBranch s (insert_branch r w).1
unfolding insert_branch contains
keeps_branch s r w h = ground arith

keeps_property :
    (s r : PropertyRow) (w : World) → HasProperty s w → HasProperty s (insert_property r w).1
unfolding insert_property contains
keeps_property s r w h = ground arith

keeps_user : (s r : UserRow) (w : World) → HasUser s w → HasUser s (insert_user r w).1
unfolding insert_user contains
keeps_user s r w h = ground arith

seeded_again : (w : World) → IsSeeded w → ensure_base_data w ≡ (ok tt, w)
unfolding ensure_base_data unit_of_work
seeded_again w seeded = ground (
  arith,
  for_each-again insert_branch HasBranch again_branch branches w seeded.has_branches,
  for_each-again insert_property HasProperty again_property properties w seeded.has_properties,
  for_each-again insert_user HasUser again_user users w seeded.has_users,
)

abbrev after_branches : World → World
after_branches w = (for_each insert_branch branches w).1

abbrev after_properties : World → World
after_properties w = (for_each insert_property properties (after_branches w)).1

abbrev after_users : World → World
after_users w = (for_each insert_user users (after_properties w)).1

three_statements :
    (w : World)
    → (ensure_base_data w).0 ≡ ok tt
    → ((for_each insert_branch branches w).0 ≡ ok tt)
      × ((for_each insert_property properties (after_branches w)).0 ≡ ok tt)
      × ((for_each insert_user users (after_properties w)).0 ≡ ok tt)
      × ((ensure_base_data w).1 ≡ after_users w)
unfolding ensure_base_data unit_of_work
three_statements w h = ground arith

abbrev AllBranches : World → Type 0
AllBranches w = All (λ r. HasBranch r w) branches

abbrev AllProperties : World → Type 0
AllProperties w = All (λ r. HasProperty r w) properties

branches_stay : (r : PropertyRow) (w : World) → AllBranches w → AllBranches (insert_property r w).1
branches_stay r w =
    All-imp (λ b. HasBranch b w) (λ b. HasBranch b (insert_property r w).1) branches
      (λ b h. kept_branch b r w h)

branches_stay_too : (r : UserRow) (w : World) → AllBranches w → AllBranches (insert_user r w).1
branches_stay_too r w =
    All-imp (λ b. HasBranch b w) (λ b. HasBranch b (insert_user r w).1) branches
      (λ b h. kept_branch_too b r w h)

properties_stay : (r : UserRow) (w : World) → AllProperties w → AllProperties (insert_user r w).1
properties_stay r w =
    All-imp (λ p. HasProperty p w) (λ p. HasProperty p (insert_user r w).1) properties
      (λ p h. kept_property p r w h)

-- The base data of the demonstration are there once their insertion has succeeded: every branch, every
-- property that a generated report can name, and every user; and inserting them again changes nothing.
pub ensure_base_data-IsSeeded :
    (w : World)
    → (ensure_base_data w).0 ≡ ok tt
    → IsSeeded (ensure_base_data w).1
      × (ensure_base_data (ensure_base_data w).1 ≡ (ok tt, (ensure_base_data w).1))
ensure_base_data-IsSeeded w h =
    let (b, p, u, same) = three_statements w h in
    let w1 : World = after_branches w in
    let w2 : World = after_properties w in
    let seeded : IsSeeded (after_users w) = record {
      has_branches = for_each-kept insert_user HasUser AllBranches branches_stay_too users w2 (
          for_each-kept insert_property HasProperty AllBranches branches_stay properties w1 (
            for_each-All insert_branch HasBranch (λ r v _. HasBranch-insert r v) keeps_branch
              branches w b));
      has_properties = for_each-kept insert_user HasUser AllProperties properties_stay users w2 (
          for_each-All insert_property HasProperty HasProperty-insert keeps_property properties w1
            p);
      has_users = for_each-All insert_user HasUser HasUser-insert keeps_user users w2 u;
    } in
    rw same (seeded, seeded_again (after_users w) seeded)
