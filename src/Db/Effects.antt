-- ===== src/Db/Effects.antt =====
-- The state that the use cases act on, and their monad. `effects` lists what has left the process,
-- the newest first: a rollback does not take it back. What the database server and the clock supply
-- are the parameters of `Server`.
use report_insight.Base.{ℕ, String, Bool, true, false, Option, none, some, List, ◌∷◌, Text}
use report_insight.Domain.{
  Datetime, Float, MonthlyStats, Report, ReportAnalysis, SearchHit, Error, Result, ok, err,
}
use report_insight.Db.Rows.{Db}

pub data Effect : Type 0 where
  -- `MetricsPort.incr`, with its default value 1, and `MetricsPort.emit_tokens`
  incr : String → Effect
  emit_tokens : ℕ → ℕ → Effect
  -- the calls of `LLMClient`
  classify_report : Text → Effect
  stream_answer : Text → List SearchHit → Effect
  narrate_monthly : Text → MonthlyStats → Effect
  -- `NotificationPort.notify_urgent`, sent
  notify_urgent : Report → ReportAnalysis → Effect
  -- `SqsConsumer.delete`
  delete_message : String → Effect

pub record World : Type 0 where
  pub db : Db
  pub effects : List Effect

-- The next value of a table's id sequence, the current time, and the conversion of a double to a column of
-- single precision, as it is read back.
pub record Server : Type 0 where
  pub next_report_id : World → ℕ
  pub next_monthly_id : World → ℕ
  pub next_audit_id : World → ℕ
  pub now : World → Datetime
  pub real : Float → Float

-- A coroutine that may raise. What it did before a raise stays done.
abbrev pub Exec : Type 0 → Type 0
Exec A = World → Result A × World

module _ {A : Type 0} where
  abbrev pub pure : A → Exec A
  pure a w = (ok a, w)

  abbrev pub raise : Error → Exec A
  raise e w = (err e, w)

  abbrev pub lift : Result A → Exec A
  lift r w = (r, w)

  abbrev pub gets : (World → A) → Exec A
  gets f w = (ok (f w), w)

  abbrev pub or_raise : Option A → Error → Exec A
  or_raise none e = raise e
  or_raise (some a) e = pure a

  -- `except Exception as e: handler`
  abbrev pub catch : Exec A → (Error → Exec A) → Exec A
  catch m handler w = let (r, w') = m w in elim r [ ok a ↦ (ok a, w') | err e ↦ handler e w' ]

  -- `unit_of_work`: commit at a normal end, rollback at an exception, which goes on.
  unfoldable pub unit_of_work : Exec A → Exec A
  unit_of_work m w =
      let (r, w') = m w in elim r [ ok a ↦ (ok a, w') | err e ↦ (err e, record w' { db = w.db }) ]

abbrev pub raise_if : Bool → Error → Exec (Unit {0})
raise_if true e = raise e
raise_if false e = pure tt

abbrev pub modify : (Db → Db) → Exec (Unit {0})
modify f w = (ok tt, record w { db = f w.db })

abbrev pub emit : Effect → Exec (Unit {0})
emit e w = (ok tt, record w { effects = e ∷ w.effects })

infixl 5 ◌>>=◌ ◌>>◌
abbrev pub ◌>>=◌ : {A B : Type 0} → Exec A → (A → Exec B) → Exec B
◌>>=◌ m f w = let (r, w') = m w in elim r [ ok a ↦ f a w' | err e ↦ (err e, w') ]

abbrev pub ◌>>◌ : {A B : Type 0} → Exec A → Exec B → Exec B
m >> k = m >>= λ _. k
