-- ===== src/Store/Implementation.antt =====
-- internal/store/memory.go: the memory repository keeps the contract of the interface.
use reliable_agent_runtime.Prelude.{
  Result-cases, String, arith, eq_refl, inl, inr, lookup-insert, ok, refl, some, ℕ, ◌≡◌,
}
use reliable_agent_runtime.Domain.{EventType, FinalResult, RawMessage, RunEvent, Time}
use reliable_agent_runtime.Store.{Encoders, terminal_event_for_status, validate_terminal_event}
use reliable_agent_runtime.Store.Change.{valid_lease-cases, validate_terminal_event-ok}
use reliable_agent_runtime.Store.Interface.{Contract, IsOver, Repository}
use reliable_agent_runtime.Store.Memory.{
  MemoryRepository, append_event, create_run, finish_locked, finish_run, finished, get_checkpoint,
  get_run, lease_next, list_events, next_event, renew_lease, save_checkpoint, written,
}
use reliable_agent_runtime.Store.Records.{terminal_event_for_status-is_terminal}

abbrev pub memory_repository : Encoders → Repository
memory_repository enc = record {
  State = MemoryRepository;
  create_run = create_run enc;
  get_run = get_run;
  lease_next = lease_next;
  renew_lease = renew_lease;
  append_event = append_event;
  save_checkpoint = save_checkpoint;
  get_checkpoint = get_checkpoint;
  finish_run = finish_run enc;
  list_events = list_events;
}

module _ (enc : Encoders) (repo : MemoryRepository) where
  finish_locked-IsOver :
      (id worker : String) (fence : ℕ) (result : FinalResult) (type : EventType)
      (payload : RawMessage) (now : Time) (event : RunEvent)
      → terminal_event_for_status result.status ≡ some type
      → (finish_locked repo id worker fence result type payload now).1 ≡ ok event
      → IsOver
          (memory_repository enc)
          (finish_locked repo id worker fence result type payload now).0
          id
          result
  unfolding finish_locked get_run written finished
  finish_locked-IsOver id worker fence result type payload now event t e =
      elim (valid_lease-cases repo id worker fence now) [
        | inr (e', refused) ↦ absurd (ground (arith, rw (refused, finish_locked) at e))
        | inl (r, found, holds, valid) ↦
            rw (valid, finish_locked)
              (
                finished r result (next_event r type payload now) now,
                rw (get_run, lookup-insert, eq_refl) refl,
                terminal_event_for_status-is_terminal result.status type t,
                refl,
                refl,
              )
      ]

  pub finish_run-IsOver :
      (id worker : String) (fence : ℕ) (result : FinalResult) (type : EventType) (now : Time)
      (event : RunEvent)
      → (finish_run enc repo id worker fence result type now).1 ≡ ok event
      → IsOver
          (memory_repository enc)
          (finish_run enc repo id worker fence result type now).0
          id
          result
  unfolding finish_run
  finish_run-IsOver id worker fence result type now event e =
      elim (Result-cases (validate_terminal_event result type)) [
        | inr (e', refused) ↦ absurd (ground (arith, rw (refused, finish_run) at e))
        | inl (_, valid) ↦ elim (Result-cases (enc.marshal_result result)) [
          | inr (e', broken) ↦ absurd (ground (arith, rw broken at (rw (valid, finish_run) at e)))
          | inl (payload, encoded) ↦
              rw (valid, finish_run)
                (rw encoded (
                  finish_locked-IsOver id worker fence result type payload now event
                    (validate_terminal_event-ok enc repo result type valid)
                    (rw encoded at (rw (valid, finish_run) at e))))
        ]
      ]

-- FinishRun of the memory repository succeeds only if it leaves the run in the status of the
-- result, which is terminal, and with the result.
pub memory_repository-Contract : (enc : Encoders) → Contract (memory_repository enc)
memory_repository-Contract enc = record {
  finishing = λ repo id worker fence result type now event e.
      finish_run-IsOver enc repo id worker fence result type now event e;
}
