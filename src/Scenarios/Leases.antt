-- ===== src/Scenarios/Leases.antt =====
-- A run that is created again, leased, and leased by another worker once the first lease is over.
use reliable_agent_runtime.Prelude.{
  Result, [], arith, err, insert, insert_sorted, lookup, ok, pos, refl, some, sort_slice, true,
  values, ◌∷◌, ◌≡◌,
}
use reliable_agent_runtime.Domain.{RunRequest, same_event}
use reliable_agent_runtime.Scenarios.Runs.{
  after_calls, asked, encoders, late_calls, run_of, until_leased,
}
use reliable_agent_runtime.Store.{
  Lease, StoreError, is_terminal, no_run_available, request_hash, terminal_event_for_status,
  validate_terminal_event,
}
use reliable_agent_runtime.Store.Fencing.{IsFenced, lease_next-IsFenced}
use reliable_agent_runtime.Store.History.{creates, history, step}
use reliable_agent_runtime.Store.Idempotency.{Replay, create_run-Replay}
use reliable_agent_runtime.Store.Keys.{IsPlain, idempotency_map_key_inj}
use reliable_agent_runtime.Store.Leasing.{IsAvailable, IsGrant, lease_next-IsGrant, lease_next_none}
use reliable_agent_runtime.Store.Memory.{
  MemoryRepository, added, append_event, appended, candidates, create_existing, create_locked,
  create_new, create_run, finish_locked, finish_run, finished, grant, holds_lease,
  idempotency_map_key, is_candidate, lease_next, lease_of, leased, list_events,
  new_memory_repository, next_event, older, queued_record, valid_lease, written,
}
use reliable_agent_runtime.Store.Preservation.{new-IsWellFormed, run_history-IsWellFormed}

abbrev asked_again : RunRequest
asked_again = record asked { run_id = "run_2"; input = "other" }

abbrev created_repo : MemoryRepository
created_repo = after_calls (creates asked 10 ∷ [])

abbrev second_grant : MemoryRepository × Result StoreError Lease
second_grant = lease_next (after_calls until_leased) "w2" 40 (pos 5)

abbrev granted : Lease
granted = lease_of (leased (run_of (after_calls until_leased)) "w2" 40 (pos 5)) "w2"

granted_found :
    (second_grant ≡ (second_grant.0, ok granted))
    × (lookup granted.run.id (after_calls until_leased).runs
        ≡ some (run_of (after_calls until_leased)))
unfolding history step new_memory_repository create_run create_locked create_new create_existing
    added queued_record idempotency_map_key request_hash lookup insert lease_next grant older
    candidates is_candidate leased values sort_slice insert_sorted append_event finish_run
    finish_locked valid_lease holds_lease written appended finished next_event
    validate_terminal_event terminal_event_for_status same_event is_terminal list_events
granted_found = (refl, refl)

none_granted : (lease_next (after_calls until_leased) "w2" 21 (pos 5)).1 ≡ err no_run_available
unfolding history step new_memory_repository create_run create_locked create_new create_existing
    added queued_record idempotency_map_key request_hash lookup insert lease_next grant older
    candidates is_candidate leased values sort_slice insert_sorted append_event finish_run
    finish_locked valid_lease holds_lease written appended finished next_event
    validate_terminal_event terminal_event_for_status same_event is_terminal list_events
none_granted = refl

still_leased :
    lookup "run_1" (after_calls until_leased).runs ≡ some (run_of (after_calls until_leased))
unfolding history step new_memory_repository create_run create_locked create_new create_existing
    added queued_record idempotency_map_key request_hash lookup insert lease_next grant older
    candidates is_candidate leased values sort_slice insert_sorted append_event finish_run
    finish_locked valid_lease holds_lease written appended finished next_event
    validate_terminal_event terminal_event_for_status same_event is_terminal list_events
still_leased = refl

created_first :
    create_run encoders new_memory_repository asked 10
    ≡ (created_repo, ok (queued_record asked "acmekhello" 10, true))
unfolding history step new_memory_repository create_run create_locked create_new create_existing
    added queued_record idempotency_map_key request_hash lookup insert lease_next grant older
    candidates is_candidate leased values sort_slice insert_sorted append_event finish_run
    finish_locked valid_lease holds_lease written appended finished next_event
    validate_terminal_event terminal_event_for_status same_event is_terminal list_events
created_first = refl

same_key : idempotency_map_key asked_again ≡ idempotency_map_key asked
unfolding idempotency_map_key
same_key = refl

other_hash : request_hash encoders asked_again ≡ ok "acmekother"
unfolding request_hash
other_hash = refl

lease_next-IsGrant_example :
    IsGrant (after_calls until_leased) second_grant.0 "w2" 40 (pos 5) granted
lease_next-IsGrant_example =
    lease_next-IsGrant (after_calls until_leased) (run_history-IsWellFormed encoders until_leased)
      "w2" 40 (pos 5) granted_found.0

lease_next_none_example : ¬ IsAvailable 21 (run_of (after_calls until_leased))
lease_next_none_example =
    lease_next_none (after_calls until_leased) (run_history-IsWellFormed encoders until_leased) "w2"
      21 (pos 5) none_granted "run_1" (run_of (after_calls until_leased)) still_leased

lease_next-IsFenced_example :
    IsFenced encoders
      (history encoders second_grant.0 late_calls)
      granted.run.id
      "w1"
      (run_of (after_calls until_leased)).fence_token
lease_next-IsFenced_example =
    lease_next-IsFenced encoders (after_calls until_leased) "w2" 40 (pos 5)
      (run_of (after_calls until_leased)) late_calls "w1"
      (run_history-IsWellFormed encoders until_leased) granted_found.0 granted_found.1 (omega arith)

create_run-Replay_example :
    ((create_run encoders (history encoders created_repo late_calls) asked_again 50).0
      ≡ history encoders created_repo late_calls)
    × Replay encoders "acmekother" "acmekhello" "run_1"
        (create_run encoders (history encoders created_repo late_calls) asked_again 50).1
unfolding queued_record
create_run-Replay_example =
    create_run-Replay encoders new_memory_repository asked asked_again 10 50 late_calls "acmekother"
      "r1" new-IsWellFormed created_first same_key other_hash refl

acme-IsPlain : IsPlain "acme"
acme-IsPlain = ((λ e. cc e), ((λ e. cc e), ((λ e. cc e), ((λ e. cc e), tt))))

idempotency_map_key_inj_example :
    (asked_again.tenant_id ≡ asked.tenant_id)
    × (asked_again.idempotency_key ≡ asked.idempotency_key)
idempotency_map_key_inj_example =
    idempotency_map_key_inj asked_again asked acme-IsPlain acme-IsPlain same_key
