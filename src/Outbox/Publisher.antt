-- ===== src/Outbox/Publisher.antt =====
-- internal/outbox/publisher.go.
use reliable_agent_runtime.Prelude.{
  List, Option, Result, String, [], add_int, eqb, err, if◌then◌else◌, leb_ℤ, length, ltb_ℤ, negsuc,
  none, ok, pos, pos_part, some, suc, zero, ℕ, ℤ, ◌*◌, ◌++◌, ◌+◌, ◌-◌, ◌/◌, ◌==◌, ◌||◌, ◌∷◌,
}
use reliable_agent_runtime.Domain.{Duration, Time, add_time}
use reliable_agent_runtime.Engine.Emit.{failure}
use reliable_agent_runtime.Engine.Environment.{message}
use reliable_agent_runtime.Outbox.{
  OutboxError, OutboxMessage, invalid_publisher_config, no_messages,
}

pub record PublisherConfig : Type 0 where
  pub publisher_id : String
  pub batch_size : ℤ
  pub lease_ttl : Duration
  pub poll_interval : Duration
  pub publish_timeout : Duration
  pub base_backoff : Duration
  pub max_backoff : Duration

abbrev millisecond : ℕ
millisecond = 1000000

abbrev second : ℕ
second = 1000000000

unfoldable pub default_config : String → PublisherConfig
default_config publisher_id = record {
  publisher_id = publisher_id;
  batch_size = pos 100;
  lease_ttl = pos (30 * second);
  poll_interval = pos (500 * millisecond);
  publish_timeout = pos (10 * second);
  base_backoff = pos second;
  max_backoff = pos (60 * second);
}

-- The check of `NewPublisher`, for a repository, a sink and a clock that are not nil.
unfoldable pub new_publisher : PublisherConfig → Result OutboxError PublisherConfig
new_publisher config =
    if config.publisher_id == ""
      || leb_ℤ config.batch_size (pos 0)
      || leb_ℤ config.lease_ttl (pos 0)
      || leb_ℤ config.poll_interval (pos 0)
      || leb_ℤ config.publish_timeout (pos 0)
      || leb_ℤ config.lease_ttl config.publish_timeout
      || leb_ℤ config.base_backoff (pos 0)
      || ltb_ℤ config.max_backoff config.base_backoff
    then err invalid_publisher_config
    else ok config

-- `p.config.MaxBackoff / 2`, which Go truncates towards zero.
unfoldable pub half : Duration → Duration
half (pos n) = pos (n / 2)
half (negsuc n) = if eqb ((n + 1) / 2) 0 then pos 0 else negsuc ((n + 1) / 2 - 1)

-- The `if` after the loop.
unfoldable pub capped : PublisherConfig → Duration → Duration
capped config delay = if ltb_ℤ config.max_backoff delay then config.max_backoff else delay

-- The loop, with the number of rounds that `index < attempt` still allows.
unfoldable pub doubled : PublisherConfig → ℕ → Duration → Duration
doubled config zero delay = capped config delay
doubled config (suc rounds) delay =
    let rest = doubled config rounds (add_int delay delay) in
    if ltb_ℤ delay config.max_backoff
    then if ltb_ℤ (half config.max_backoff) delay then config.max_backoff else rest
    else capped config delay

unfoldable pub backoff : PublisherConfig → ℤ → Duration
backoff config attempt =
    let attempt' = if ltb_ℤ attempt (pos 1) then pos 1 else attempt in
    doubled config (pos_part attempt' - 1) config.base_backoff

-- The repository, the sink and the clock, whose answers may depend on all that happened before.
pub record Surroundings : Type 1 where
  pub World : Type 0
  pub now : World → Time × World
  pub lease_batch :
      String → Time → Duration → ℤ → World → Result OutboxError (List OutboxMessage) × World
  -- `Publish` under the timeout; none if it returns nil.
  pub publish : Duration → OutboxMessage → World → Option OutboxError × World
  pub mark_published : ℤ → String → ℕ → Time → World → Option OutboxError × World
  pub mark_retry : ℤ → String → ℕ → Time → OutboxError → World → Option OutboxError × World

-- The errors that are joined: by message, with the publish error and that of the repository.
pub data DeliveryFailure : Type 0 where
  publish_failed : ℤ → OutboxError → DeliveryFailure
  reschedule_failed : ℤ → OutboxError → OutboxError → DeliveryFailure
  mark_failed : ℤ → OutboxError → DeliveryFailure

module _ (env : Surroundings) (config : PublisherConfig) where
  unfoldable pub reschedule : OutboxMessage → OutboxError → env.World → DeliveryFailure × env.World
  unfolding backoff
  reschedule message e world =
      let (at_time, world') = env.now world in
      let (refused, world'') =
        env.mark_retry message.id config.publisher_id message.lease_token
          (add_time at_time (backoff config message.attempts)) e world' in
      (
        elim refused [
          | none ↦ publish_failed message.id e
          | some retry_error ↦ reschedule_failed message.id e retry_error
        ],
        world'',
      )

  unfoldable pub confirm : OutboxMessage → env.World → List DeliveryFailure × env.World
  confirm message world =
      let (at_time, world') = env.now world in
      let (refused, world'') =
        env.mark_published message.id config.publisher_id message.lease_token at_time world' in
      (elim refused [ none ↦ [] | some e ↦ mark_failed message.id e ∷ [] ], world'')

  -- What follows the answer of the sink.
  unfoldable pub settle :
      OutboxMessage → Option OutboxError → env.World → List DeliveryFailure × env.World
  settle message none world = confirm message world
  settle message (some e) world =
      let (failure, world') = reschedule message e world in (failure ∷ [], world')

  -- One round of the loop over the batch, with the failures that it appends.
  unfoldable pub deliver : OutboxMessage → env.World → List DeliveryFailure × env.World
  unfolding settle
  deliver message world =
      let (answer, world') = env.publish config.publish_timeout message world in
      settle message answer world'

  unfoldable pub deliver_all : List OutboxMessage → env.World → List DeliveryFailure × env.World
  deliver_all [] world = ([], world)
  deliver_all (message ∷ messages) world =
      let (failures, world') = deliver message world in
      let (others, world'') = deliver_all messages world' in (failures ++ others, world'')

  -- What follows the lease of a batch: its size and the failures that are joined.
  unfoldable pub publish_batch :
      Result OutboxError (List OutboxMessage)
      → env.World
      → Result OutboxError (ℕ × List DeliveryFailure) × env.World
  publish_batch (err no_messages) world = (ok (0, []), world)
  publish_batch (err e) world = (err e, world)
  publish_batch (ok messages) world =
      let (failures, world') = deliver_all messages world in
      (ok (length messages, failures), world')

  -- `RunOnce`
  unfoldable pub run_once : env.World → Result OutboxError (ℕ × List DeliveryFailure) × env.World
  unfolding publish_batch
  run_once world =
      let (at_time, world') = env.now world in
      let (answer, world'') =
        env.lease_batch config.publisher_id at_time config.lease_ttl config.batch_size world' in
      publish_batch answer world''
