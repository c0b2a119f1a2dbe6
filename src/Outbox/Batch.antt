-- ===== src/Outbox/Batch.antt =====
-- A batch of outbox messages: a message that fails does not keep the others from the sink.
use reliable_agent_runtime.Prelude.{
  List, Option, Result, String, [], append-nil, append_assoc, err, none, ok, refl, some, sym, ℕ, ℤ,
  ◌++◌, ◌∷◌, ◌≡◌,
}
use reliable_agent_runtime.Domain.{Duration, Time}
use reliable_agent_runtime.Outbox.{
  OutboxError, OutboxMessage, context_canceled, context_deadline_exceeded, invalid_publisher_config,
  no_messages, other_error, outbox_lease_lost,
}
use reliable_agent_runtime.Outbox.Publisher.{
  PublisherConfig, Surroundings, confirm, deliver, deliver_all, publish_batch, reschedule, run_once,
  settle,
}

module _ (env : Surroundings) (config : PublisherConfig) where
  -- A record of the messages that the sink was asked to publish.
  pub record IsLog (log : env.World → List OutboxMessage) : Type 0 where
    pub by_clock : (w : env.World) → log (env.now w).1 ≡ log w
    pub by_lease :
        (id : String) (at_time : Time) (ttl : Duration) (size : ℤ) (w : env.World)
        → log (env.lease_batch id at_time ttl size w).1 ≡ log w
    pub by_publish :
        (timeout : Duration) (message : OutboxMessage) (w : env.World)
        → log (env.publish timeout message w).1 ≡ log w ++ message ∷ []
    pub by_mark :
        (id : ℤ) (publisher : String) (token : ℕ) (at_time : Time) (w : env.World)
        → log (env.mark_published id publisher token at_time w).1 ≡ log w
    pub by_retry :
        (id : ℤ) (publisher : String) (token : ℕ) (at_time : Time) (e : OutboxError) (w : env.World)
        → log (env.mark_retry id publisher token at_time e w).1 ≡ log w

  -- The messages of the batch that a run got, none if it got none.
  unfoldable pub batch_of : Result OutboxError (List OutboxMessage) → List OutboxMessage
  batch_of (ok messages) = messages
  batch_of (err e) = []

  module _ (log : env.World → List OutboxMessage) (law : IsLog log) where
    settle_log :
        (message : OutboxMessage) (answer : Option OutboxError) (w : env.World)
        → log (settle env config message answer w).1 ≡ log w
    unfolding settle reschedule confirm
    settle_log message none w = rw (law.by_mark, law.by_clock)
    settle_log message (some e) w = rw (law.by_retry, law.by_clock)

    deliver_log :
        (message : OutboxMessage) (w : env.World)
        → log (deliver env config message w).1 ≡ log w ++ message ∷ []
    unfolding deliver
    deliver_log message w = rw (settle_log, law.by_publish)

    deliver_all_log :
        (messages : List OutboxMessage) (w : env.World)
        → log (deliver_all env config messages w).1 ≡ log w ++ messages
    unfolding deliver_all
    deliver_all_log [] w = sym (append-nil (log w))
    deliver_all_log (message ∷ messages) w =
        rw (deliver_all_log messages, deliver_log message w, append_assoc (log w)) refl

    publish_batch_log :
        (answer : Result OutboxError (List OutboxMessage)) (w : env.World)
        → log (publish_batch env config answer w).1 ≡ log w ++ batch_of answer
    unfolding publish_batch batch_of
    publish_batch_log (ok messages) w = deliver_all_log messages w
    publish_batch_log (err no_messages) w = sym (append-nil (log w))
    publish_batch_log (err outbox_lease_lost) w = sym (append-nil (log w))
    publish_batch_log (err invalid_publisher_config) w = sym (append-nil (log w))
    publish_batch_log (err context_canceled) w = sym (append-nil (log w))
    publish_batch_log (err context_deadline_exceeded) w = sym (append-nil (log w))
    publish_batch_log (err (other_error _)) w = sym (append-nil (log w))

    -- A record of the messages that the sink was given, which all else leaves alone, shows that a run
    -- of the publisher hands each message of the batch to the sink once, in the order of the
    -- batch, whichever of them fail.
    pub run_once_log :
        (w : env.World)
        → log (run_once env config w).1
          ≡ log w
            ++ batch_of
                (env.lease_batch config.publisher_id
                  (env.now w).0
                  config.lease_ttl
                  config.batch_size
                  (env.now w).1).0
    unfolding run_once
    run_once_log w = rw (publish_batch_log, law.by_lease, law.by_clock)
