-- ===== src/Store/Preservation.antt =====
-- Every call keeps the in-memory repository well formed.
use reliable_agent_runtime.Prelude.{
  Bool-cases, Distinct, List, String, [], ap, arith, eq_iff, if◌then◌else◌, inl, inr, insert,
  insert-Distinct, length, length-append, lookup, lookup-insert, none, or_zero, refl, some, subst,
  subst₂, sym, ◌++◌, ◌==◌, ◌∷◌, ◌≡◌, ◌≤◌,
}
use reliable_agent_runtime.Domain.{RunEvent}
use reliable_agent_runtime.Store.{Checkpoint, Encoders, RunRecord}
use reliable_agent_runtime.Store.Change.{
  Change, IsKeyed, created, ended, granted, renewed, saved, step-Change, unchanged, wrote,
}
use reliable_agent_runtime.Store.History.{Call, history, step}
use reliable_agent_runtime.Store.Memory.{
  MemoryRepository, added, appended, created_event, extended, finished, leased,
  new_memory_repository, next_event, queued_record, written,
}
use reliable_agent_runtime.Store.Records.{
  appended-IsConsistent, extended-IsConsistent, finished-IsConsistent, holds_lease-running,
  leased-IsConsistent, queued_record-IsConsistent,
}
use reliable_agent_runtime.Store.WellFormed.{Covers, IsConsistent, IsWellFormed, events_of}

Covers-longer :
    {es es' : List RunEvent} {c : Checkpoint} → Covers es c → length es ≤ length es' → Covers es' c
Covers-longer old longer = record { committed = omega (arith, old.committed, longer) }

-- A change of one run: its record, and its events, of which none is lost.
module _ (repo repo' : MemoryRepository) (id : String) (r' : RunRecord) (es' : List RunEvent)
    (w : IsWellFormed repo) (runs' : repo'.runs ≡ insert id r' repo.runs)
    (events' : (j : String) → events_of repo' j ≡ (if id == j then es' else events_of repo j))
    (checkpoints' : repo'.checkpoints ≡ repo.checkpoints) (fits : IsConsistent id r' es')
    (kept : length (events_of repo id) ≤ length es') where
  lookup' : (j : String) → lookup j repo'.runs ≡ (if id == j then some r' else lookup j repo.runs)
  lookup' j = rw runs' (lookup-insert id j r' repo.runs)

  consistent' :
      (j : String) (r : RunRecord)
      → lookup j repo'.runs ≡ some r
      → IsConsistent j r (events_of repo' j)
  consistent' j r found = elim (Bool-cases (id == j)) [
    | inl same ↦ rw (events' j) (
        rw same (
          subst₂ (λ i x. IsConsistent i x es') ((eq_iff id j).0 same)
            (ground (arith, lookup' j, found, same)) fits))
    | inr other_run ↦
        rw (events' j)
          (rw other_run (w.consistent j r (ground (arith, lookup' j, found, other_run))))
  ]

  no_orphans' : (j : String) → lookup j repo'.runs ≡ none → events_of repo' j ≡ []
  no_orphans' j missing = elim (Bool-cases (id == j)) [
    | inl same ↦ absurd (ground (arith, lookup' j, missing, same))
    | inr other_run ↦
        rw (events' j)
          (rw other_run (w.no_orphans j (ground (arith, lookup' j, missing, other_run))))
  ]

  covers' :
      (j : String) (c : Checkpoint)
      → lookup j repo'.checkpoints ≡ some c
      → Covers (events_of repo' j) c
  covers' j c found =
      let old : Covers (events_of repo j) c =
        w.checkpoints j c (subst (λ m. lookup j m ≡ some c) checkpoints' found) in
      elim (Bool-cases (id == j)) [
        | inl same ↦ rw (events' j) (
            rw same (
              Covers-longer old
                (subst (λ k. length (events_of repo k) ≤ length es') ((eq_iff id j).0 same) kept)))
        | inr other_run ↦ rw (events' j) (rw other_run old)
      ]

  updated-IsWellFormed : IsWellFormed repo'
  updated-IsWellFormed = record {
    distinct = subst Distinct (sym runs') (insert-Distinct id r' repo.runs w.distinct);
    consistent = consistent';
    no_orphans = no_orphans';
    checkpoints = covers';
  }

-- The events after a write of one run's list.
events_of-insert :
    (repo : MemoryRepository) (id : String) (es : List RunEvent) (j : String)
    → or_zero [] (lookup j (insert id es repo.events)) ≡ (if id == j then es else events_of repo j)
events_of-insert repo id es j = rw (lookup-insert id j es repo.events) (ground arith)

events_of-same :
    (repo : MemoryRepository) (id j : String)
    → events_of repo j ≡ (if id == j then events_of repo id else events_of repo j)
events_of-same repo id j = ground (arith, eq_iff id j)

saved-Covers :
    (repo : MemoryRepository) (r : RunRecord) (c : Checkpoint)
    → IsWellFormed repo
    → lookup c.run_id repo.runs ≡ some r
    → c.event_sequence ≤ r.last_event_seq
    → (j : String) (c' : Checkpoint) → lookup j (insert c.run_id c repo.checkpoints) ≡ some c'
    → Covers (events_of repo j) c'
saved-Covers repo r c w found committed j c' found' = elim (Bool-cases (c.run_id == j)) [
  | inl same ↦
      subst₂ (λ i x. Covers (events_of repo i) x) {u = c} {v = c'} ((eq_iff c.run_id j).0 same)
        (ground (arith, lookup-insert c.run_id j c repo.checkpoints, found', same))
        (record { committed = omega (arith, committed, (w.consistent c.run_id r found).counted) })
  | inr other_run ↦
      w.checkpoints j c'
        (ground (arith, lookup-insert c.run_id j c repo.checkpoints, found', other_run))
]

pub Change-IsWellFormed :
    {repo repo' : MemoryRepository} → Change repo repo' → IsWellFormed repo → IsWellFormed repo'
unfolding added written
Change-IsWellFormed (unchanged e) w = subst IsWellFormed (sym e) w
Change-IsWellFormed {repo} (created request hash payload now _ free e) w =
    subst IsWellFormed (sym e) (
      updated-IsWellFormed repo _ request.run_id (queued_record request hash now)
        (created_event request.run_id payload now ∷ []) w refl
        (events_of-insert repo request.run_id _) refl
        (queued_record-IsConsistent request hash payload now)
        (omega (arith, ap length (w.no_orphans request.run_id free))))
Change-IsWellFormed {repo} (granted r worker now ttl found ready named e) w =
    subst IsWellFormed (sym e) (
      updated-IsWellFormed repo _ r.id (leased r worker now ttl) (events_of repo r.id) w refl
        (events_of-same repo r.id) refl
        (leased-IsConsistent r.id r _ worker now ttl named ready (w.consistent r.id r found))
        (omega arith))
Change-IsWellFormed {repo} (renewed id worker fence r now ttl found holds e) w =
    subst IsWellFormed (sym e) (
      updated-IsWellFormed repo _ id (extended r now ttl) (events_of repo id) w refl
        (events_of-same repo id) refl
        (extended-IsConsistent id r _ now ttl (w.consistent id r found)) (omega arith))
Change-IsWellFormed {repo} (wrote id worker fence r type payload now found holds e) w =
    subst IsWellFormed (sym e) (
      updated-IsWellFormed repo _ id (appended r type payload now)
        (events_of repo id ++ next_event r type payload now ∷ []) w refl
        (events_of-insert repo id _) refl
        (appended-IsConsistent id r (events_of repo id) type payload now (w.consistent id r found)
          (holds_lease-running r worker fence now holds).0)
        (omega (arith, length-append (events_of repo id) (next_event r type payload now ∷ []))))
Change-IsWellFormed {repo} (ended id worker fence r result type payload now found holds t e) w =
    subst IsWellFormed (sym e) (
      updated-IsWellFormed repo _ id (finished r result (next_event r type payload now) now)
        (events_of repo id ++ next_event r type payload now ∷ []) w refl
        (events_of-insert repo id _) refl
        (finished-IsConsistent id r (events_of repo id) type payload now (w.consistent id r found)
          (holds_lease-running r worker fence now holds).0 result t)
        (omega (arith, length-append (events_of repo id) (next_event r type payload now ∷ []))))
Change-IsWellFormed {repo} (saved worker r c found holds committed e) w =
    subst IsWellFormed (sym e) (record {
      distinct = w.distinct;
      consistent = w.consistent;
      no_orphans = w.no_orphans;
      checkpoints = saved-Covers repo r c w found committed;
    })

pub new-IsWellFormed : IsWellFormed new_memory_repository
unfolding new_memory_repository lookup
new-IsWellFormed = record {
  distinct = tt;
  consistent = λ id r found. absurd (cc found);
  no_orphans = λ id missing. refl;
  checkpoints = λ id c found. absurd (cc found);
}

pub IsWellFormed-IsKeyed : (repo : MemoryRepository) → IsWellFormed repo → IsKeyed repo
IsWellFormed-IsKeyed repo w id r found = (w.consistent id r found).keyed

module _ (enc : Encoders) where
  pub step-IsWellFormed :
      (repo : MemoryRepository) (call : Call)
      → IsWellFormed repo
      → IsWellFormed (step enc repo call)
  step-IsWellFormed repo call w =
      Change-IsWellFormed (step-Change enc repo call w.distinct (IsWellFormed-IsKeyed repo w)) w

  pub history-IsWellFormed :
      (repo : MemoryRepository) (calls : List Call)
      → IsWellFormed repo
      → IsWellFormed (history enc repo calls)
  unfolding history
  history-IsWellFormed repo [] w = w
  history-IsWellFormed repo (call ∷ calls) w =
      history-IsWellFormed (step enc repo call) calls (step-IsWellFormed repo call w)

  -- After any sequence of calls, accepted or refused, on a new repository: every run stands under
  -- its identifier, its events carry that identifier and are numbered 1, 2, 3, ... as a uint64
  -- counts, LastEventSeq is their number, the attempt number is the fence token, a run is queued
  -- and never leased, running with an owner, or ended with the result and the last event of its
  -- status; a run that does not exist has no events; and no checkpoint is ahead of the events.
  pub run_history-IsWellFormed :
      (calls : List Call) → IsWellFormed (history enc new_memory_repository calls)
  run_history-IsWellFormed calls = history-IsWellFormed new_memory_repository calls new-IsWellFormed
