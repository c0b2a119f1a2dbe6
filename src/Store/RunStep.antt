-- ===== src/Store/RunStep.antt =====
-- What a change of the repository is for one run that exists.
use reliable_agent_runtime.Prelude.{
  Bool-cases, List, String, [], ap, arith, eq_iff, false, inl, inr, insert, lookup, lookup-insert,
  or_zero, refl, some, subst, sym, true, ℕ, ◌++◌, ◌==◌, ◌∙◌, ◌∷◌, ◌≡◌,
}
use reliable_agent_runtime.Domain.{Duration, EventType, FinalResult, RawMessage, RunEvent, Time}
use reliable_agent_runtime.Store.{RunRecord, terminal_event_for_status}
use reliable_agent_runtime.Store.Change.{
  Change, created, ended, granted, renewed, saved, unchanged, wrote,
}
use reliable_agent_runtime.Store.Memory.{
  MemoryRepository, added, appended, extended, finished, holds_lease, is_candidate, leased,
  next_event, written,
}
use reliable_agent_runtime.Store.WellFormed.{events_of}

pub data RunStep (repo repo' : MemoryRepository) (id : String) (r : RunRecord) : Type 0 where
  rests :
      lookup id repo'.runs ≡ some r
      → events_of repo' id ≡ events_of repo id
      → RunStep repo repo' id r
  is_leased :
      (worker : String) (now : Time) (ttl : Duration)
      → is_candidate now r ≡ true
      → lookup id repo'.runs ≡ some (leased r worker now ttl)
      → events_of repo' id ≡ events_of repo id
      → RunStep repo repo' id r
  is_renewed :
      (worker : String) (fence : ℕ) (now : Time) (ttl : Duration)
      → holds_lease r worker fence now ≡ true
      → lookup id repo'.runs ≡ some (extended r now ttl)
      → events_of repo' id ≡ events_of repo id
      → RunStep repo repo' id r
  gains_event :
      (worker : String) (fence : ℕ) (type : EventType) (payload : RawMessage) (now : Time)
      → holds_lease r worker fence now ≡ true
      → lookup id repo'.runs ≡ some (appended r type payload now)
      → events_of repo' id ≡ events_of repo id ++ next_event r type payload now ∷ []
      → RunStep repo repo' id r
  ends :
      (worker : String) (fence : ℕ) (result : FinalResult) (type : EventType) (payload : RawMessage)
      (now : Time)
      → holds_lease r worker fence now ≡ true
      → terminal_event_for_status result.status ≡ some type
      → lookup id repo'.runs ≡ some (finished r result (next_event r type payload now) now)
      → events_of repo' id ≡ events_of repo id ++ next_event r type payload now ∷ []
      → RunStep repo repo' id r

-- A write under another key leaves the run alone.
module _ (repo : MemoryRepository) (id j : String) (r : RunRecord)
    (found : lookup id repo.runs ≡ some r) (elsewhere : (j == id) ≡ false) where
  other_run : (x : RunRecord) → lookup id (insert j x repo.runs) ≡ some r
  other_run x = rw (lookup-insert j id x repo.runs) (rw elsewhere found)

  other_events :
      (es : List RunEvent) → or_zero [] (lookup id (insert j es repo.events)) ≡ events_of repo id
  other_events es = rw (lookup-insert j id es repo.events) (rw elsewhere)

-- A write under the run's own key.
module _ (repo : MemoryRepository) (id j : String) (r x : RunRecord)
    (found : lookup id repo.runs ≡ some r) (found_there : lookup j repo.runs ≡ some x)
    (here : (j == id) ≡ true) where
  same_run : (y : RunRecord) → lookup id (insert j y repo.runs) ≡ some y
  same_run y = rw (lookup-insert j id y repo.runs) (rw here)

  same_events :
      (e : RunEvent)
      → or_zero [] (lookup id (insert j (events_of repo j ++ e ∷ []) repo.events))
        ≡ events_of repo id ++ e ∷ []
  same_events e =
      rw (lookup-insert j id (events_of repo j ++ e ∷ []) repo.events)
        (rw here (ap (λ k. events_of repo k ++ e ∷ []) ((eq_iff j id).0 here)))

  same_record : x ≡ r
  same_record = ground (arith, found, found_there, (eq_iff j id).0 here)

pub Change-RunStep :
    {repo repo' : MemoryRepository} (id : String) (r : RunRecord)
    → Change repo repo'
    → lookup id repo.runs ≡ some r
    → RunStep repo repo' id r
unfolding added written
Change-RunStep {repo} id r (unchanged e) found =
    subst (λ s. RunStep repo s id r) (sym e) (rests found refl)
Change-RunStep {repo} id r (created request hash payload now _ free e) found =
    subst (λ s. RunStep repo s id r) (sym e)
      (rests (other_run repo id request.run_id r found apart _)
        (other_events repo id request.run_id r found apart _))
  where
    apart : (request.run_id == id) ≡ false
    apart = ground (arith, eq_iff request.run_id id, found, free)
Change-RunStep {repo} id r (granted x worker now ttl found' ready named e) found =
    subst (λ s. RunStep repo s id r) (sym e)
      (elim (Bool-cases (x.id == id)) [
        | inr apart ↦ rests (other_run repo id x.id r found apart _) refl
        | inl here ↦
            let same = same_record repo id x.id r x found found' here in
            is_leased worker now ttl (subst (λ y. is_candidate now y ≡ true) same ready)
              (same_run repo id x.id r x found found' here _
                ∙ ap (λ y. some (leased y worker now ttl)) same)
              refl
      ])
Change-RunStep {repo} id r (renewed j worker fence x now ttl found' holds e) found =
    subst (λ s. RunStep repo s id r) (sym e)
      (elim (Bool-cases (j == id)) [
        | inr apart ↦ rests (other_run repo id j r found apart _) refl
        | inl here ↦
            let same = same_record repo id j r x found found' here in
            is_renewed worker fence now ttl
              (subst (λ y. holds_lease y worker fence now ≡ true) same holds)
              (same_run repo id j r x found found' here _
                ∙ ap (λ y. some (extended y now ttl)) same)
              refl
      ])
Change-RunStep {repo} id r (wrote j worker fence x type payload now found' holds e) found =
    subst (λ s. RunStep repo s id r) (sym e)
      (elim (Bool-cases (j == id)) [
        | inr apart ↦
            rests (other_run repo id j r found apart _) (other_events repo id j r found apart _)
        | inl here ↦
            let same = same_record repo id j r x found found' here in
            gains_event worker fence type payload now
              (subst (λ y. holds_lease y worker fence now ≡ true) same holds)
              (same_run repo id j r x found found' here _
                ∙ ap (λ y. some (appended y type payload now)) same)
              (same_events repo id j r x found found' here _
                ∙ ap (λ y. events_of repo id ++ next_event y type payload now ∷ []) same)
      ])
Change-RunStep {repo} id r (saved worker x c found' holds committed e) found =
    subst (λ s. RunStep repo s id r) (sym e) (rests found refl)
Change-RunStep {repo} id r (ended j worker fence x result type payload now found' holds t e) found =
    subst (λ s. RunStep repo s id r) (sym e)
      (elim (Bool-cases (j == id)) [
        | inr apart ↦
            rests (other_run repo id j r found apart _) (other_events repo id j r found apart _)
        | inl here ↦
            let same = same_record repo id j r x found found' here in
            ends worker fence result type payload now
              (subst (λ y. holds_lease y worker fence now ≡ true) same holds) t
              (same_run repo id j r x found found' here _
                ∙ ap (λ y. some (finished y result (next_event y type payload now) now)) same)
              (same_events repo id j r x found found' here _
                ∙ ap (λ y. events_of repo id ++ next_event y type payload now ∷ []) same)
      ])
