-- ===== src/Api/AuditUi/Newest.antt =====
-- The first row of the screen of the log.
use report_insight.Base.{
  ℕ, suc, ◌<◌, ◌≡◌, ◌∙◌, ap, sym, refl, true, Bool, Option, some, inl, inr, List, [], ◌∷◌, map,
  filter, take, All, All-filter, Text, codes, ℤ, arith,
}
use report_insight.Base.Str.{decimal}
use report_insight.Domain.{
  Json, AuditAction, audit_action_of, AuditEntry, MonthlyReport, User, Result, Result-cases, ok,
}
use report_insight.Db.{World, Server, AuditRow, UserRow, traverse}
use report_insight.Db.Table.{contains, find_by, insert_desc, order_by_desc}
use report_insight.Db.Paging.{All-order_by_desc}
use report_insight.Repositories.Audit.{audit_id, user_key, to_entry, list_recent, record_action}
use report_insight.Repositories.Monthly as Repo
use report_insight.Monthly.Service.{approve, write_approval, deny_qa_writes}
use report_insight.Api.MonthlyPages.{world-resolve_user}
use report_insight.Api.AuditUi.{AuditItem, item_of, audit_home, approval_text, action_label_of}
use report_insight.Api.AuditUi.Readable.{ReadsDigits, approval_readable}

contains-found :
    (k : ℕ) (rows : List UserRow) (r : UserRow)
    → find_by user_key k rows ≡ some r
    → contains user_key k rows ≡ true
unfolding find_by contains
contains-found k [] r h = absurd (ground arith)
contains-found k (x ∷ rows) r h = ground (arith, contains-found k rows r)

insert_desc-newest :
    (log : AuditRow) (rows : List AuditRow)
    → All (λ (r : AuditRow). r.id < log.id) rows
    → insert_desc audit_id log rows ≡ log ∷ rows
unfolding insert_desc
insert_desc-newest log [] h = refl
insert_desc-newest log (r ∷ rows) h = ground arith

traverse-first :
    {A B : Type 0} (f : A → Result B) (x : A) (xs : List A) (y : B) (ys : List B)
    → f x ≡ ok y
    → traverse f (x ∷ xs) ≡ ok ys
    → (rest : List B) × (ys ≡ y ∷ rest)
unfolding traverse
traverse-first f x xs y ys one h = elim (Result-cases (traverse f xs)) [
  | inl (zs, e) ↦ (zs, ground arith)
  | inr (e, broken) ↦ absurd (ground arith)
]

-- A row that is above all others, of an action that is known and a user that exists, is the first entry.
list_recent-newest :
    (log : AuditRow) (logs : List AuditRow) (author : UserRow) (action : AuditAction) (n : ℕ)
    (w : World) (entries : List AuditEntry)
    → w.db.audit_logs ≡ log ∷ logs
    → All (λ (r : AuditRow). r.id < log.id) logs
    → find_by user_key log.user_id w.db.users ≡ some author
    → audit_action_of log.action ≡ some action
    → (list_recent (suc n) w).0 ≡ ok entries
    → (rest : List AuditEntry) × (entries
        ≡ record {
          id = log.id;
          actor_email = author.email;
          action = action;
          payload = log.payload;
          created_at = log.created_at;
        }
          ∷ rest)
unfolding list_recent order_by_desc
list_recent-newest log logs author action n w entries added newest found known h =
    let joined : AuditRow → Bool = λ r. contains user_key r.user_id w.db.users in
    let f : AuditRow → Result AuditEntry =
      λ l. to_entry l (find_by user_key l.user_id w.db.users) (audit_action_of l.action) in
    let older = order_by_desc audit_id (filter joined logs) in
    let below : All (λ (r : AuditRow). r.id < log.id) older =
      All-order_by_desc audit_id (λ (r : AuditRow). r.id < log.id) (filter joined logs)
        (All-filter (λ (r : AuditRow). r.id < log.id) (λ (r : AuditRow). r.id < log.id) joined logs
          (λ r _ k. k) newest) in
    let there : joined log ≡ true = contains-found log.user_id w.db.users author found in
    let first : take (suc n) (order_by_desc audit_id (filter joined (log ∷ logs)))
        ≡ log ∷ take n older =
      rw there (ap (take (suc n)) (insert_desc-newest log older below)) in
    let listed : traverse f (take (suc n) (order_by_desc audit_id (filter joined w.db.audit_logs)))
        ≡ ok entries =
      h in
    let begins : traverse f (log ∷ take n older) ≡ ok entries =
      ap (traverse f) (sym first)
      ∙ ap (λ rows. traverse f (take (suc n) (order_by_desc audit_id (filter joined rows))))
          (sym added)
      ∙ listed in
    traverse-first f log (take n older)
      record {
        id = log.id;
        actor_email = author.email;
        action = action;
        payload = log.payload;
        created_at = log.created_at;
      }
      entries (rw (found, known) refl) begins

audit_home-entries :
    (show : Json → Text) (to_int : Text → Option ℕ) (uid : ℤ) (w : World)
    (page : User × (List User × List (AuditItem show to_int)))
    → (audit_home show to_int uid w).0 ≡ ok page
    → (entries : List AuditEntry) × ((list_recent 100 w).0 ≡ ok entries)
      × (page.1.1 ≡ map (item_of show to_int) entries)
unfolding audit_home
audit_home-entries show to_int uid w page h =
    let same = world-resolve_user uid w in
    elim (Result-cases (list_recent 100 w).0) [
      | inl (entries, e) ↦ (entries, e, ground arith)
      | inr (x, e) ↦ absurd (ground arith)
    ]

users-approve :
    (server : Server) (user : User) (k : ℕ) (w : World)
    → (approve server user k w).1.db.users ≡ w.db.users
unfolding approve write_approval deny_qa_writes Repo.get Repo.get_internal Repo.approve
    record_action
users-approve server user k w = ground arith

-- An approval that succeeds is logged, and the screen of the log, opened by anybody right after it, shows it
-- in its first row: with the approver's address and the time of the log's new row, and by the property, the
-- year, the month and the version of the report that was approved. The year has at most four digits, the
-- month at most two, `int` reads decimal digits, the approver is a user, and the new row of the log has an
-- id above those of the others.
pub approval_shown :
    (show : Json → Text) (to_int : Text → Option ℕ) (server : Server) (user : User) (k : ℕ)
    (w : World) (m : MonthlyReport) (author : UserRow) (uid : ℤ)
    (page : User × (List User × List (AuditItem show to_int)))
    → ReadsDigits to_int
    → m.month.year < 10000
    → m.month.month < 100
    → find_by user_key user.id w.db.users ≡ some author
    → ((log : AuditRow)
        → (approve server user k w).1.db.audit_logs ≡ log ∷ w.db.audit_logs
        → All (λ (r : AuditRow). r.id < log.id) w.db.audit_logs)
    → (approve server user k w).0 ≡ ok m
    → (audit_home show to_int uid (approve server user k w).1).0 ≡ ok page
    → (log : AuditRow) × (rest : List (AuditItem show to_int)) × ((approve server user k
          w).1.db.audit_logs
        ≡ log ∷ w.db.audit_logs)
      × (page.1.1
          ≡ record {
            created_at = log.created_at;
            actor_email = author.email;
            action_label = codes "月次報告書の承認";
            detail =
                approval_text
                  (decimal m.property_id)
                  m.month.year
                  m.month.month
                  (decimal m.version);
          }
            ∷ rest)
unfolding item_of action_label_of
approval_shown show to_int server user k w m author uid page reads y mo found newest done opened =
    let w' : World = (approve server user k w).1 in
    let (log, added, who, action, detail) =
      approval_readable show to_int server user k w m reads done y mo in
    let (entries, listed, shown) = audit_home-entries show to_int uid w' page opened in
    let known : find_by user_key log.user_id w'.db.users ≡ some author =
      ap (λ i. find_by user_key i w'.db.users) who
      ∙ ap (find_by user_key user.id) (users-approve server user k w)
      ∙ found in
    let (rest, first) =
      list_recent-newest log w.db.audit_logs author AuditAction.approve_monthly 99 w' entries added
        (newest log added) known action listed in
    (
      log,
      map (item_of show to_int) rest,
      added,
      shown ∙ ap (map (item_of show to_int)) first ∙ rw detail refl,
    )
