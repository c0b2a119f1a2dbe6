-- ===== src/Scenarios/Runs.antt =====
-- A repository with one run: created, leased, and ended_found.
use Prim.Native.String.{◌++◌ as append_str}
use reliable_agent_runtime.Prelude.{
  List, [], ap, arith, drop, insert, insert_sorted, length, lookup, ok, or_zero, pos, refl, some,
  sort_slice, values, ◌++◌, ◌<◌, ◌^◌, ◌∷◌, ◌≡◌,
}
use reliable_agent_runtime.Domain.{
  FinalResult, ReleaseManifest, RunEvent, RunRequest, live, model_delta, model_started,
  run_succeeded, same_event, succeeded,
}
use reliable_agent_runtime.Store.{
  Encoders, RunRecord, is_terminal, request_hash, terminal_event_for_status,
  validate_terminal_event, zero_run,
}
use reliable_agent_runtime.Store.History.{Call, appends, creates, finishes, history, leases, step}
use reliable_agent_runtime.Store.Memory.{
  MemoryRepository, added, append_event, appended, candidates, create_existing, create_locked,
  create_new, create_run, finish_locked, finish_run, finished, grant, holds_lease,
  idempotency_map_key, is_candidate, lease_next, leased, list_events, new_memory_repository,
  next_event, older, queued_record, valid_lease, written,
}
use reliable_agent_runtime.Store.Preservation.{run_history-IsWellFormed}
use reliable_agent_runtime.Store.Resume.{list_events-drop, list_events_resume}
use reliable_agent_runtime.Store.Terminal.{Edge, history-terminal, step-Edge}
use reliable_agent_runtime.Store.WellFormed.{IsWellFormed, events_of}

-- Encodings that keep what they encode.
abbrev pub encoders : Encoders
encoders = record {
  marshal_hash_input = λ h. ok (append_str h.tenant_id (append_str h.idempotency_key h.input));
  marshal_created = λ mode manifest. ok manifest.release_id;
  marshal_result = λ result. ok result.output;
  format_utc = λ t. "t";
  sha256 = λ s. s;
  hex = λ s. s;
}

abbrev pub release : ReleaseManifest
release = record {
  release_id = "r1";
  checksum = "c1";
  agent_version = "";
  prompt_version = "";
  skill_versions = [];
  toolset_version = "";
  model_profile_version = "";
  policy_version = "";
}

abbrev pub asked : RunRequest
asked = record {
  run_id = "run_1";
  tenant_id = "acme";
  idempotency_key = "k";
  input = "hello";
  mode = live;
  deadline = 0;
  manifest = release;
}

abbrev pub done_result : FinalResult
done_result = record { status = succeeded; output = "hi"; error = "" }

abbrev pub until_leased : List Call
until_leased = creates asked 10 ∷ leases "w1" 20 (pos 5) ∷ []

abbrev pub until_ended : List Call
until_ended =
    until_leased
    ++ appends "run_1" "w1" 1 model_started "{}" 21
      ∷ finishes "run_1" "w1" 1 done_result run_succeeded 22
      ∷ []

-- Calls that come too late.
abbrev pub late_calls : List Call
late_calls = leases "w2" 40 (pos 5) ∷ appends "run_1" "w1" 1 model_delta "{}" 41 ∷ []

abbrev pub after_calls : List Call → MemoryRepository
after_calls calls = history encoders new_memory_repository calls

abbrev pub run_of : MemoryRepository → RunRecord
run_of repo = or_zero zero_run (lookup "run_1" repo.runs)

-- The run is found after these calls, in this status.
pub ended_found :
    (lookup "run_1" (after_calls until_ended).runs ≡ some (run_of (after_calls until_ended)))
    × ((run_of (after_calls until_ended)).status ≡ succeeded)
unfolding history step new_memory_repository create_run create_locked create_new create_existing
    added queued_record idempotency_map_key request_hash lookup insert lease_next grant older
    candidates is_candidate leased values sort_slice insert_sorted append_event finish_run
    finish_locked valid_lease holds_lease written appended finished next_event
    validate_terminal_event terminal_event_for_status same_event is_terminal list_events
ended_found = (refl, refl)

pub leased_found :
    lookup "run_1" (after_calls until_leased).runs ≡ some (run_of (after_calls until_leased))
unfolding history step new_memory_repository create_run create_locked create_new create_existing
    added queued_record idempotency_map_key request_hash lookup insert lease_next grant older
    candidates is_candidate leased values sort_slice insert_sorted append_event finish_run
    finish_locked valid_lease holds_lease written appended finished next_event
    validate_terminal_event terminal_event_for_status same_event is_terminal list_events
leased_found = refl

pub few_first : length (events_of (after_calls until_leased) "run_1") < 2 ^ 64
unfolding history step new_memory_repository create_run create_locked create_new create_existing
    added queued_record idempotency_map_key request_hash lookup insert lease_next grant older
    candidates is_candidate leased values sort_slice insert_sorted append_event finish_run
    finish_locked valid_lease holds_lease written appended finished next_event
    validate_terminal_event terminal_event_for_status same_event is_terminal list_events
few_first = omega arith

few_events :
    length (events_of (history encoders (after_calls until_leased) late_calls) "run_1") < 2 ^ 64
unfolding history step new_memory_repository create_run create_locked create_new create_existing
    added queued_record idempotency_map_key request_hash lookup insert lease_next grant older
    candidates is_candidate leased values sort_slice insert_sorted append_event finish_run
    finish_locked valid_lease holds_lease written appended finished next_event
    validate_terminal_event terminal_event_for_status same_event is_terminal list_events
few_events = omega arith

run_history-IsWellFormed_example : IsWellFormed (after_calls until_ended)
run_history-IsWellFormed_example = run_history-IsWellFormed encoders until_ended

history-terminal_example :
    (lookup "run_1" (history encoders (after_calls until_ended) late_calls).runs
      ≡ some (run_of (after_calls until_ended)))
    × (events_of (history encoders (after_calls until_ended) late_calls) "run_1"
        ≡ events_of (after_calls until_ended) "run_1")
unfolding is_terminal
history-terminal_example =
    history-terminal encoders (after_calls until_ended) late_calls "run_1"
      (run_of (after_calls until_ended)) (run_history-IsWellFormed encoders until_ended)
      ended_found.0 (ap is_terminal ended_found.1)

step-Edge_example :
    (r : RunRecord) × (lookup "run_1"
        (step encoders
          (after_calls until_leased)
          (finishes "run_1" "w1" 1 done_result run_succeeded 22)).runs
      ≡ some r)
    × Edge (run_of (after_calls until_leased)).status r.status
step-Edge_example =
    step-Edge encoders (after_calls until_leased)
      (finishes "run_1" "w1" 1 done_result run_succeeded 22) "run_1"
      (run_of (after_calls until_leased)) (run_history-IsWellFormed encoders until_leased)
      leased_found

list_events-drop_example :
    list_events (after_calls until_leased) "run_1" 1
    ≡ ok (drop 1 (events_of (after_calls until_leased) "run_1"))
list_events-drop_example =
    list_events-drop (after_calls until_leased) "run_1" (run_of (after_calls until_leased)) 1
      (run_history-IsWellFormed encoders until_leased) leased_found few_first

list_events_resume_example :
    (new : List RunEvent) × (events_of
        (history encoders (after_calls until_leased) late_calls)
        "run_1"
      ≡ events_of (after_calls until_leased) "run_1" ++ new)
    × (list_events
          (history encoders (after_calls until_leased) late_calls)
          "run_1"
          (run_of (after_calls until_leased)).last_event_seq
        ≡ ok new)
list_events_resume_example =
    list_events_resume encoders (after_calls until_leased) late_calls "run_1"
      (run_of (after_calls until_leased)) (run_history-IsWellFormed encoders until_leased)
      leased_found few_events
