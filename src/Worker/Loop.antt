-- ===== src/Worker/Loop.antt =====
-- `_consume_loop` of app/worker/main.py. The messages of a batch are handled one after the other, in the
-- order of the batch, as with an `llm_max_concurrency` of 1.
use report_insight.Base.{List, [], ◌∷◌}
use report_insight.Domain.{Result}
use report_insight.Db.{Exec, pure, lift, ◌>>=◌, ◌>>◌}
use report_insight.Worker.Process.{Container, SqsMessage, handle}

-- `gather`: an exception of a handler goes on, and none of the later messages is begun.
unfoldable pub handle_all : Container → List SqsMessage → Exec (Unit {0})
unfolding handle
handle_all container [] = pure tt
handle_all container (message ∷ messages) =
    handle container message >> handle_all container messages

-- The argument has what `sqs.receive` gives in each round, until `stop` is set; over no messages there is
-- nothing to handle.
unfoldable pub consume_loop : Container → List (Result (List SqsMessage)) → Exec (Unit {0})
unfolding handle_all
consume_loop container [] = pure tt
consume_loop container (received ∷ rounds) = do
  messages ← lift received
  handle_all container messages
  consume_loop container rounds
