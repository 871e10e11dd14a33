-- ===== src/Tests/Worker.antt =====
-- The loop of the worker at a concrete input: a message that cannot be read comes first.
use report_insight.Base.{
  ℕ, ltb, leb, ◌≤◌, ◌<◌, ◌+◌, ◌≡◌, refl, true, false, none, some, List, [], ◌∷◌, map, Any, inl, inr,
  arith, if◌then◌else◌, String,
}
use report_insight.Domain.{ok, err, value_error}
use report_insight.Db.{ReportRow}
use report_insight.Db.Table.{contains}
use report_insight.Repositories.Report.{report_key}
use report_insight.Ingest.Service.{Ports, prepare, analysis_of}
use report_insight.Ingest.S3Event.{parse_s3_event}
use report_insight.Worker.Process.{Container, SqsMessage}
use report_insight.Worker.Loop.{consume_loop}
use report_insight.Worker.Deletion.{deletions}
use report_insight.Worker.Liveness.{Works}
use report_insight.Worker.Rounds.{consume_loop_live, Awaits}
use report_insight.Tests.{world, ports, server}
use report_insight.Tests.Ingest.{prepared}

-- An id above all that are in use.
unfoldable next_id : List ReportRow → ℕ
next_id [] = 1
next_id (r ∷ rows) = if ltb (next_id rows) (r.id + 1) then r.id + 1 else next_id rows

contains-above :
    (k : ℕ) (rows : List ReportRow) → next_id rows ≤ k → contains report_key k rows ≡ false
unfolding contains next_id
contains-above k [] h = refl
contains-above k (r ∷ rows) h = ground (arith, contains-above k rows)

abbrev own_ports : Ports
own_ports = record ports {
  server = record server { next_report_id = λ w. next_id w.db.reports };
  get_object = λ key. if report_insight.Base.str_eq key "k" then ok (1 ∷ []) else err value_error;
}

abbrev container : Container
container = record {
  ports = own_ports;
  json_loads = λ body. none;
  to_str = λ j. "";
  delete = λ receipt. ok tt;
}

works : Works container
works = record {
  fresh = λ w. contains-above (next_id w.db.reports) w.db.reports (ground arith);
  notifies = λ r a. refl;
  deletes = λ receipt. refl;
}

abbrev rounds : List (List SqsMessage)
rounds =
    (record { receipt_handle = "poison"; body = "missing" } ∷ [])
    ∷ []
    ∷ (record { receipt_handle = "receipt"; body = "k" } ∷ [])
    ∷ []

awaits : Any (Any (Awaits container world.db.properties "receipt")) rounds
unfolding parse_s3_event prepare analysis_of contains
awaits = inr (inr (inl (inl (refl, ("k" ∷ [], refl, ((prepared, λ w. refl, refl), tt))))))

consume_loop_live_example :
    ((consume_loop container (map ok rounds) world).0 ≡ ok tt)
    × Any (λ s. s ≡ "receipt") (deletions (consume_loop container (map ok rounds) world).1.effects)
consume_loop_live_example = consume_loop_live container rounds "receipt" world works awaits
