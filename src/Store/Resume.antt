-- ===== src/Store/Resume.antt =====
-- Reading the events of a run from a cursor, as the event stream does after a broken connection.
use reliable_agent_runtime.Prelude.{
  Bool, List, String, [], ap, append-nil, append_assoc, arith, dec_le, drop, length, length-append,
  lookup, ltb, ok, refl, select, some, suc, sym, zero, ℕ, ◌++◌, ◌+◌, ◌-◌, ◌<◌, ◌^◌, ◌∙◌, ◌∷◌, ◌≡◌,
}
use reliable_agent_runtime.Domain.{RunEvent}
use reliable_agent_runtime.Store.{Encoders, RunRecord}
use reliable_agent_runtime.Store.Change.{step-Change}
use reliable_agent_runtime.Store.History.{Call, history, step}
use reliable_agent_runtime.Store.Memory.{MemoryRepository, list_events}
use reliable_agent_runtime.Store.Preservation.{
  IsWellFormed-IsKeyed, history-IsWellFormed, step-IsWellFormed,
}
use reliable_agent_runtime.Store.RunStep.{
  Change-RunStep, RunStep, ends, gains_event, is_leased, is_renewed, rests,
}
use reliable_agent_runtime.Store.WellFormed.{IsWellFormed, Numbered, events_of}

pub drop-append {ℓ} : {A : Type ℓ} (xs ys : List A) → drop (length xs) (xs ++ ys) ≡ ys
drop-append [] ys = refl
drop-append (x ∷ xs) ys = drop-append xs ys

abbrev newer : ℕ → RunEvent → Bool
newer n e = ltb n e.sequence

select-Numbered :
    (id : String) (k n : ℕ) (es : List RunEvent)
    → k + length es < 2 ^ 64
    → Numbered id k es
    → select (newer n) es ≡ drop (n - k) es
select-Numbered id k n [] short h = drop_nil (n - k)
  where
    drop_nil : (m : ℕ) → ◌≡◌ {A = List RunEvent} [] (drop m [])
    drop_nil zero = refl
    drop_nil (suc m) = refl
select-Numbered id k n (e ∷ es) short h =
    let rest = select-Numbered id (k + 1) n es (omega arith) h.2 in
    let number : e.sequence ≡ k + 1 = omega (arith, h.1) in
    elim (dec_le n k) [
      | yes old ↦
          let none_left : n - k ≡ 0 = omega arith in
          let none_left' : n - (k + 1) ≡ 0 = omega arith in
          rw (none_left, number) (ground (arith, rest, none_left', old))
      | no more ↦
          let some_left : n - k ≡ suc (n - (k + 1)) = omega arith in
          rw (some_left, number) (ground (arith, rest, more))
    ]

-- In a well-formed repository, `ListEvents` of a run from a cursor leaves out as many events as the
-- cursor says, and keeps all others in their order, while the run has fewer than 2^64 events.
pub list_events-drop :
    (repo : MemoryRepository) (id : String) (r : RunRecord) (n : ℕ)
    → IsWellFormed repo
    → lookup id repo.runs ≡ some r
    → length (events_of repo id) < 2 ^ 64
    → list_events repo id n ≡ ok (drop n (events_of repo id))
unfolding list_events
list_events-drop repo id r n w found short =
    let whole : n - 0 ≡ n = omega arith in
    rw (found, list_events)
      (ap ok (
        select-Numbered id 0 n (events_of repo id) (omega (arith, short))
          (w.consistent id r found).numbered
        ∙ ap (λ m. drop m (events_of repo id)) whole))

RunStep-events :
    {repo repo' : MemoryRepository} {id : String} {r : RunRecord}
    → RunStep repo repo' id r
    → (r' : RunRecord) × (new : List RunEvent) × (lookup id repo'.runs ≡ some r')
      × (events_of repo' id ≡ events_of repo id ++ new)
RunStep-events {r} (rests a b) = (r, [], a, b ∙ sym (append-nil _))
RunStep-events (is_leased worker now ttl ready a b) = (_, [], a, b ∙ sym (append-nil _))
RunStep-events (is_renewed worker fence now ttl holds a b) = (_, [], a, b ∙ sym (append-nil _))
RunStep-events (gains_event worker fence type payload now holds a b) = (_, _, a, b)
RunStep-events (ends worker fence result type payload now holds e a b) = (_, _, a, b)

module _ (enc : Encoders) where
  -- Events are never removed or changed: calls only add new ones at the end.
  pub history-events :
      (repo : MemoryRepository) (calls : List Call) (id : String) (r : RunRecord)
      → IsWellFormed repo
      → lookup id repo.runs ≡ some r
      → (r' : RunRecord) × (new : List RunEvent) × (lookup id (history enc repo calls).runs
          ≡ some r')
        × (events_of (history enc repo calls) id ≡ events_of repo id ++ new)
  unfolding history
  history-events repo [] id r w found = (r, [], found, sym (append-nil _))
  history-events repo (call ∷ calls) id r w found =
      let (r', new, found', e) = RunStep-events (
        Change-RunStep id r (step-Change enc repo call w.distinct (IsWellFormed-IsKeyed repo w))
          found) in
      let (r'', new', found'', e') =
        history-events (step enc repo call) calls id r' (step-IsWellFormed enc repo call w)
          found' in
      (
        r'',
        new ++ new',
        found'',
        e' ∙ ap (λ es. es ++ new') e ∙ append_assoc (events_of repo id) new new',
      )

  -- A reader of a well-formed repository that has seen a run's events up to its LastEventSeq, and
  -- asks again from that number after any calls, gets exactly the events that these calls added, while
  -- the run has fewer than 2^64 events: none is missed or repeated.
  pub list_events_resume :
      (repo : MemoryRepository) (calls : List Call) (id : String) (r : RunRecord)
      → IsWellFormed repo
      → lookup id repo.runs ≡ some r
      → length (events_of (history enc repo calls) id) < 2 ^ 64
      → (new : List RunEvent) × (events_of (history enc repo calls) id ≡ events_of repo id ++ new)
        × (list_events (history enc repo calls) id r.last_event_seq ≡ ok new)
  list_events_resume repo calls id r w found short =
      let (r', new, found', e) = history-events repo calls id r w found in
      let seen : r.last_event_seq ≡ length (events_of repo id) = omega (
        arith,
        (w.consistent id r found).counted,
        ap length e,
        length-append (events_of repo id) new,
        short,
      ) in
      (
        new,
        e,
        list_events-drop (history enc repo calls) id r' r.last_event_seq
              (history-IsWellFormed enc repo calls w) found' short
            ∙ rw (e, seen) (ap ok (drop-append (events_of repo id) new)),
      )
