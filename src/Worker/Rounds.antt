-- ===== src/Worker/Rounds.antt =====
-- What the loop gets done, over its rounds.
use report_insight.Base.{map, String, ◌≡◌, refl, ◌∙◌, inl, inr, List, [], ◌∷◌, Any, arith}
use report_insight.Domain.{ok}
use report_insight.Db.{World, PropertyRow}
use report_insight.Worker.Process.{Container, SqsMessage, handle}
use report_insight.Worker.Deletion.{deletions}
use report_insight.Worker.Liveness.{Works, MessageIsReady, Kept, handle-Kept, handle_ready}
use report_insight.Worker.Loop.{handle_all, consume_loop}

-- The message with this receipt handle, whose keys are ready.
abbrev pub Awaits : Container → List PropertyRow → String → SqsMessage → Type 0
Awaits container properties r message =
    (message.receipt_handle ≡ r) × MessageIsReady container properties message

handle_all-cons :
    (container : Container) (message : SqsMessage) (messages : List SqsMessage) (w : World)
    → (handle container message w).0 ≡ ok tt
    → handle_all container (message ∷ messages) w
      ≡ handle_all container messages (handle container message w).1
unfolding handle_all
handle_all-cons container message messages w h = ground arith

handle_all-Kept :
    (container : Container) (messages : List SqsMessage) (w : World)
    → Works container
    → ((handle_all container messages w).0 ≡ ok tt) × Kept w (handle_all container messages w).1
handle_all-Kept container [] w works = unfold handle_all in (refl, (refl, λ r h. h))
handle_all-Kept container (message ∷ messages) w works =
    let (done, (p, d)) = handle-Kept container message w works in
    let (done', (p', d')) =
      handle_all-Kept container messages (handle container message w).1 works in
    rw (handle_all-cons container message messages w done) (done', (p' ∙ p, λ r h. d' r (d r h)))

handle_all_ready :
    (container : Container) (messages : List SqsMessage) (r : String) (w : World)
    → Works container
    → Any (Awaits container w.db.properties r) messages
    → Any (λ s. s ≡ r) (deletions (handle_all container messages w).1.effects)
handle_all_ready container [] r w works x = elim x [ ]
handle_all_ready container (message ∷ messages) r w works (inl (same, ready)) =
    let (done, kept) = handle-Kept container message w works in
    rw (handle_all-cons container message messages w done) (
      (handle_all-Kept container messages (handle container message w).1 works).1.1 r
        (rw (handle_ready container message w works ready) (inl same)))
handle_all_ready container (message ∷ messages) r w works (inr later) =
    let (done, (p, d)) = handle-Kept container message w works in
    rw (handle_all-cons container message messages w done)
      (handle_all_ready container messages r (handle container message w).1 works (rw p later))

consume_loop-cons :
    (container : Container) (messages : List SqsMessage) (rounds : List (List SqsMessage))
    (w : World)
    → (handle_all container messages w).0 ≡ ok tt
    → consume_loop container (map ok (messages ∷ rounds)) w
      ≡ consume_loop container (map ok rounds) (handle_all container messages w).1
unfolding consume_loop
consume_loop-cons container messages rounds w h = ground arith

consume_loop-Kept :
    (container : Container) (rounds : List (List SqsMessage)) (w : World)
    → Works container
    → ((consume_loop container (map ok rounds) w).0 ≡ ok tt)
      × Kept w (consume_loop container (map ok rounds) w).1
consume_loop-Kept container [] w works = unfold consume_loop in (refl, (refl, λ r h. h))
consume_loop-Kept container (messages ∷ rounds) w works =
    let (done, (p, d)) = handle_all-Kept container messages w works in
    let (done', (p', d')) =
      consume_loop-Kept container rounds (handle_all container messages w).1 works in
    rw (consume_loop-cons container messages rounds w done) (done', (p' ∙ p, λ r h. d' r (d r h)))

-- Where the id sequence, the notifier and the queue work, the loop raises nothing, whatever the messages
-- are, and every message it receives whose objects can be prepared and whose properties are known is
-- deleted, whatever messages come with it or before it.
pub consume_loop_live :
    (container : Container) (rounds : List (List SqsMessage)) (r : String) (w : World)
    → Works container
    → Any (Any (Awaits container w.db.properties r)) rounds
    → ((consume_loop container (map ok rounds) w).0 ≡ ok tt)
      × Any (λ s. s ≡ r) (deletions (consume_loop container (map ok rounds) w).1.effects)
consume_loop_live container [] r w works x = elim x [ ]
consume_loop_live container (messages ∷ rounds) r w works (inl now) =
    let (done, kept) = handle_all-Kept container messages w works in
    let (ran, rest) =
      consume_loop-Kept container rounds (handle_all container messages w).1 works in
    rw (consume_loop-cons container messages rounds w done)
      (ran, rest.1 r (handle_all_ready container messages r w works now))
consume_loop_live container (messages ∷ rounds) r w works (inr later) =
    let (done, (p, d)) = handle_all-Kept container messages w works in
    rw (consume_loop-cons container messages rounds w done)
      (consume_loop_live container rounds r (handle_all container messages w).1 works (rw p later))
