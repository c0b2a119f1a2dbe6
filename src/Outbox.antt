-- ===== src/Outbox.antt =====
-- internal/outbox/outbox.go: the messages of the outbox and the errors of its repository.
pub mod Publisher
pub mod Backoff
pub mod Batch
pub mod Table
pub mod Rows
pub mod Ownership
pub mod Guarantees
pub mod Takeover
use reliable_agent_runtime.Prelude.{String, ℕ, ℤ}
use reliable_agent_runtime.Domain.{RawMessage, Time}

-- `other_error` is an error of the repository or the sink that is none of the others.
pub data OutboxError : Type 0 where
  no_messages outbox_lease_lost invalid_publisher_config context_canceled
        context_deadline_exceeded :
      OutboxError
  other_error : String → OutboxError

pub record OutboxMessage : Type 0 where
  pub id : ℤ
  pub aggregate_type : String
  pub aggregate_id : String
  pub event_type : String
  pub payload : RawMessage
  pub attempts : ℤ
  pub created_at : Time
  pub lease_owner : String
  pub lease_until : Time
  pub lease_token : ℕ  -- uint64
