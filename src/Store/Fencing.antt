-- ===== src/Store/Fencing.antt =====
-- A lease that another lease has replaced is refused for good.
use reliable_agent_runtime.Prelude.{
  List, Result-cases, String, [], ap, arith, eq_refl, err, inl, inr, length, lookup, lookup-insert,
  ok, refl, some, subst, true, u64, ℕ, ◌+◌, ◌-◌, ◌<◌, ◌^◌, ◌∷◌, ◌≡◌, ◌≢◌, ◌≤◌, ◌⊎◌,
}
use reliable_agent_runtime.Domain.{Duration, EventType, FinalResult, RawMessage, Time, same_event}
use reliable_agent_runtime.Store.{
  Encoders, Lease, RunRecord, lease_lost, terminal_event_for_status, validate_terminal_event,
}
use reliable_agent_runtime.Store.Change.{step-Change}
use reliable_agent_runtime.Store.History.{Call, history, leases, step}
use reliable_agent_runtime.Store.Leasing.{lease_next-IsGrant}
use reliable_agent_runtime.Store.Memory.{
  MemoryRepository, append_event, appended, extended, finish_locked, finish_run, finished,
  holds_lease, lease_next, leased, renew_lease, save_checkpoint, valid_lease,
}
use reliable_agent_runtime.Store.Preservation.{IsWellFormed-IsKeyed, step-IsWellFormed}
use reliable_agent_runtime.Store.RunStep.{
  Change-RunStep, RunStep, ends, gains_event, is_leased, is_renewed, rests,
}
use reliable_agent_runtime.Store.WellFormed.{IsWellFormed}

-- Every method that a lease guards refuses the pair of a worker and a fence token, and changes
-- nothing. `FinishRun` looks at its event and encodes the result before it looks at the lease.
pub record IsFenced (enc : Encoders) (repo : MemoryRepository) (id worker : String) (fence : ℕ)
    : Type 0 where
  pub renew :
      (now : Time) (ttl : Duration)
      → renew_lease repo id worker fence now ttl ≡ (repo, err lease_lost)
  pub append :
      (type : EventType) (payload : RawMessage) (now : Time)
      → append_event repo id worker fence type payload now ≡ (repo, err lease_lost)
  pub save :
      (event_sequence : ℕ) (state : RawMessage) (now : Time)
      → save_checkpoint repo worker (record {
        run_id = id;
        fence_token = fence;
        event_sequence = event_sequence;
        state = state;
        created_at = now;
      })
        ≡ (repo, err lease_lost)
  pub finish :
      (result : FinalResult) (type : EventType) (now : Time) (payload : RawMessage)
      → terminal_event_for_status result.status ≡ some type
      → enc.marshal_result result ≡ ok payload
      → finish_run enc repo id worker fence result type now ≡ (repo, err lease_lost)
  pub finish_keeps :
      (result : FinalResult) (type : EventType) (now : Time)
      → (finish_run enc repo id worker fence result type now).0 ≡ repo

valid_lease_lost :
    (repo : MemoryRepository) (id worker : String) (fence : ℕ) (now : Time) (r : RunRecord)
    → lookup id repo.runs ≡ some r
    → r.fence_token ≢ fence
    → valid_lease repo id worker fence now ≡ err lease_lost
unfolding valid_lease holds_lease
valid_lease_lost repo id worker fence now r found differs =
    rw (found, valid_lease) (ground (arith, differs))

same_event_refl : (type : EventType) → same_event type type ≡ true
unfolding same_event
same_event_refl type = ground arith

validate_terminal_event_ok :
    (result : FinalResult) (type : EventType)
    → terminal_event_for_status result.status ≡ some type
    → validate_terminal_event result type ≡ ok tt
unfolding validate_terminal_event
validate_terminal_event_ok result type t =
    rw (t, validate_terminal_event) (rw (same_event_refl type))

module _ (enc : Encoders) (repo : MemoryRepository) (id worker : String) (fence : ℕ)
    (lost : (now : Time) → valid_lease repo id worker fence now ≡ err lease_lost) where
  finish_locked_lost :
      (result : FinalResult) (type : EventType) (payload : RawMessage) (now : Time)
      → finish_locked repo id worker fence result type payload now ≡ (repo, err lease_lost)
  unfolding finish_locked
  finish_locked_lost result type payload now = rw (lost now, finish_locked)

  finish_run_lost :
      (result : FinalResult) (type : EventType) (now : Time)
      → (finish_run enc repo id worker fence result type now).0 ≡ repo
  unfolding finish_run
  finish_run_lost result type now = elim (Result-cases (validate_terminal_event result type)) [
    | inr (e, refused) ↦ rw (refused, finish_run)
    | inl (_, valid) ↦ elim (Result-cases (enc.marshal_result result)) [
      | inr (e, broken) ↦ rw (valid, finish_run) (rw broken)
      | inl (payload, encoded) ↦
          rw (valid, finish_run)
            (rw encoded (ap (λ p. p.0) (finish_locked_lost result type payload now)))
    ]
  ]

  finish_run_refused :
      (result : FinalResult) (type : EventType) (now : Time) (payload : RawMessage)
      → terminal_event_for_status result.status ≡ some type
      → enc.marshal_result result ≡ ok payload
      → finish_run enc repo id worker fence result type now ≡ (repo, err lease_lost)
  unfolding finish_run
  finish_run_refused result type now payload t encoded =
      rw (validate_terminal_event_ok result type t, finish_run)
        (rw encoded (finish_locked_lost result type payload now))

  lost-IsFenced : IsFenced enc repo id worker fence
  unfolding renew_lease append_event save_checkpoint
  lost-IsFenced = record {
    renew = λ now ttl. rw (lost now, renew_lease);
    append = λ type payload now. rw (lost now, append_event);
    save = λ n state now. rw (lost now, save_checkpoint);
    finish = finish_run_refused;
    finish_keeps = finish_run_lost;
  }

-- A change raises a run's fence token by one at most, as a uint64 counts.
RunStep-fence :
    {repo repo' : MemoryRepository} {id : String} {r : RunRecord}
    → RunStep repo repo' id r
    → (r' : RunRecord) × (lookup id repo'.runs ≡ some r')
      × ((r'.fence_token ≡ r.fence_token) ⊎ (r'.fence_token ≡ u64 (r.fence_token + 1)))
unfolding leased extended appended finished
RunStep-fence {r} (rests a b) = (r, a, inl refl)
RunStep-fence (is_leased worker now ttl ready a b) = (_, a, inr refl)
RunStep-fence (is_renewed worker fence now ttl holds a b) = (_, a, inl refl)
RunStep-fence (gains_event worker fence type payload now holds a b) = (_, a, inl refl)
RunStep-fence (ends worker fence result type payload now holds e a b) = (_, a, inl refl)

module _ (enc : Encoders) where
  -- After n calls the token has been raised k ≤ n times.
  history-fence :
      (repo : MemoryRepository) (calls : List Call) (id : String) (r : RunRecord)
      → IsWellFormed repo
      → lookup id repo.runs ≡ some r
      → (r' : RunRecord) × (k : ℕ) × (lookup id (history enc repo calls).runs ≡ some r')
        × (r'.fence_token ≡ u64 (r.fence_token + k))
        × (k ≤ length calls)
  unfolding history
  history-fence repo [] id r w found =
      (r, 0, found, omega (arith, (w.consistent id r found).in_range), omega arith)
  history-fence repo (call ∷ calls) id r w found =
      let (r', found', raised) = RunStep-fence (
        Change-RunStep id r (step-Change enc repo call w.distinct (IsWellFormed-IsKeyed repo w))
          found) in
      let (r'', k, found'', raised', short) =
        history-fence (step enc repo call) calls id r' (step-IsWellFormed enc repo call w) found' in
      elim raised [
        | inl same ↦ (r'', k, found'', omega (arith, raised', same), omega (arith, short))
        | inr up ↦ (r'', k + 1, found'', omega (arith, raised', up), omega (arith, short))
      ]

  -- Once `LeaseNext` on a well-formed repository has granted a run, the token that the run had before
  -- is refused by every guarded method, for every worker, at every time, and after any sequence of
  -- calls that is shorter than 2^64 - 1; none of them changes the repository. (`FinishRun` answers so
  -- when its event fits the result and the result can be encoded, and changes nothing in any case.)
  pub lease_next-IsFenced :
      (repo : MemoryRepository) (worker : String) (now : Time) (ttl : Duration)
      {repo' : MemoryRepository} {l : Lease} (before : RunRecord) (calls : List Call)
      (old_worker : String)
      → IsWellFormed repo
      → lease_next repo worker now ttl ≡ (repo', ok l)
      → lookup l.run.id repo.runs ≡ some before
      → length calls < 2 ^ 64 - 1
      → IsFenced enc (history enc repo' calls) l.run.id old_worker before.fence_token
  unfolding step leased
  lease_next-IsFenced repo worker now ttl {repo'} {l} before calls old_worker w e found short =
      let g = lease_next-IsGrant repo w worker now ttl e in
      let r = g.r in
      let named : l.run.id ≡ r.id = ap (λ (x : Lease). x.run.id) g.lease in
      let same : before ≡ r = cc (found, ap (λ k. lookup k repo.runs) named, g.oldest.found) in
      let held_by : lookup l.run.id repo'.runs ≡ some (leased r worker now ttl) = rw named (
        rw g.after_grant
          (rw (lookup-insert r.id r.id (leased r worker now ttl) repo.runs) (rw (eq_refl r.id)))) in
      let (r', k, found', raised, few) =
        history-fence repo' calls l.run.id (leased r worker now ttl)
          (subst IsWellFormed (ap (λ p. p.0) e)
            (step-IsWellFormed enc repo (leases worker now ttl) w))
          held_by in
      let differs : r'.fence_token ≢ before.fence_token =
        rw same
          (omega (arith, raised, few, short, (w.consistent r.id r g.oldest.found).in_range)) in
      lost-IsFenced enc (history enc repo' calls) l.run.id old_worker before.fence_token (λ now'.
        valid_lease_lost (history enc repo' calls) l.run.id old_worker before.fence_token now' r'
          found' differs)
