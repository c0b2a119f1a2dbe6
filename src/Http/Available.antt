-- ===== src/Http/Available.antt =====
-- internal/httpapi/handler.go over internal/store/memory.go: one call of writeAvailableEvents.
use reliable_agent_runtime.Prelude.{
  Bool, List, String, [], ap, append-nil, append_assoc, arith, drop, false, inl, inr, length,
  length-append, length-drop, lookup, none, ok, refl, some, subst, sym, true, ℕ, ◌++◌, ◌+◌, ◌<◌,
  ◌^◌, ◌∙◌, ◌∷◌, ◌≡◌, ◌≤◌, ◌⊎◌,
}
use reliable_agent_runtime.Domain.{RunEvent}
use reliable_agent_runtime.Http.Cursors.{Numbered-drop, Prefix, drop-drop}
use reliable_agent_runtime.Http.Events.{Connection, Frame, Written, write_available_events}
use reliable_agent_runtime.Http.Frames.{
  Delivers, all_written, any_ends, delivered, interrupted, write_events-Delivers,
}
use reliable_agent_runtime.Http.Request.{JsonCodec}
use reliable_agent_runtime.Store.{Encoders, RunRecord, is_terminal}
use reliable_agent_runtime.Store.Implementation.{memory_repository}
use reliable_agent_runtime.Store.Memory.{MemoryRepository, get_run, list_events}
use reliable_agent_runtime.Store.Resume.{drop-append, list_events-drop}
use reliable_agent_runtime.Store.WellFormed.{IsWellFormed, Numbered, events_of}

module _ (id : String) where
  -- A stream that was opened behind c has sent the events from there to its cursor.
  pub record Progress (repo : MemoryRepository) (c cursor : ℕ) (sent : List Frame) : Type 0 where
    pub position : cursor ≡ c + length (delivered sent)
    pub front : Prefix (delivered sent) (drop c (events_of repo id))

  -- The call ends with an error, or all events were sent and `terminal` has a reason.
  pub data Available (repo : MemoryRepository) (c cursor : ℕ) (r' : RunRecord) (w : Written)
      : Type 0 where
    cut_short :
        w.outcome ≡ none
        → Prefix (delivered w.sent) (drop c (events_of repo id))
        → Available repo c cursor r' w
    all_sent :
        (terminal : Bool) (next : ℕ)
        → w.outcome ≡ some (terminal, next)
        → drop c (events_of repo id) ≡ delivered w.sent
        → next ≡ c + length (delivered w.sent)
        → cursor ≤ next
        → (terminal ≡ true → (any_ends (delivered w.sent) ≡ true) ⊎ (is_terminal r'.status ≡ true))
        → Available repo c cursor r' w

  any_ends-append : (xs ys : List RunEvent) → any_ends ys ≡ true → any_ends (xs ++ ys) ≡ true
  any_ends-append [] ys h = h
  any_ends-append (x ∷ xs) ys h = ground (arith, any_ends-append xs ys h)

  Delivers-Available :
      (repo : MemoryRepository) (c cursor : ℕ) (sent : List Frame) (event : RunEvent)
      (events : List RunEvent) (r' : RunRecord) (w : Written)
      → cursor ≡ c + length (delivered sent)
      → drop c (events_of repo id) ≡ delivered sent ++ event ∷ events
      → Delivers (event ∷ events) (delivered sent) cursor false w
      → Available repo c cursor r' w
  Delivers-Available repo c cursor sent event events r' w position split (all_written outcome d) =
      all_sent (any_ends (event ∷ events)) (cursor + length (event ∷ events)) outcome
        (split ∙ sym d)
        (omega (arith, position, ap length d, length-append (delivered sent) (event ∷ events)))
        (omega arith)
        (λ ending. inl (rw d (any_ends-append (delivered sent) (event ∷ events) ending)))
  Delivers-Available repo c cursor sent event events r' w position split
        (interrupted front back outcome e d) =
      cut_short outcome (
        back,
        split
            ∙ ap (λ xs. delivered sent ++ xs) e
            ∙ sym (append_assoc (delivered sent) front back)
            ∙ ap (λ xs. xs ++ back) (sym d),
      )

  module _ (enc : Encoders) (json : JsonCodec) (accepts : Connection) where
    pub listed :
        (repo : MemoryRepository) (r : RunRecord) (c cursor : ℕ) (sent : List Frame)
        (back : List RunEvent)
        → IsWellFormed repo
        → lookup id repo.runs ≡ some r
        → length (events_of repo id) < 2 ^ 64
        → cursor ≡ c + length (delivered sent)
        → drop c (events_of repo id) ≡ delivered sent ++ back
        → (list_events repo id cursor ≡ ok back) × (drop cursor (events_of repo id) ≡ back)
    listed repo r c cursor sent back w found short position split =
        let behind : drop cursor (events_of repo id) ≡ back =
          ap (λ k. drop k (events_of repo id)) position
          ∙ drop-drop c (length (delivered sent)) (events_of repo id)
          ∙ ap (drop (length (delivered sent))) split
          ∙ drop-append (delivered sent) back in
        (list_events-drop repo id r cursor w found short ∙ ap ok behind, behind)

    pub behind-Numbered :
        (repo : MemoryRepository) (r : RunRecord) (cursor : ℕ) (event : RunEvent)
        (events : List RunEvent)
        → IsWellFormed repo
        → lookup id repo.runs ≡ some r
        → length (events_of repo id) < 2 ^ 64
        → drop cursor (events_of repo id) ≡ event ∷ events
        → Numbered id cursor (event ∷ events) × (cursor + length (event ∷ events) < 2 ^ 64)
    behind-Numbered repo r cursor event events w found short behind = (
      subst (Numbered id cursor) behind (
          subst (λ k. Numbered id k (drop cursor (events_of repo id))) (zero_plus cursor)
            (Numbered-drop id 0 cursor (events_of repo id) (w.consistent id r found).numbered)),
      omega (arith, short, ap length behind, length-drop cursor (events_of repo id)),
    )
      where
        zero_plus : (n : ℕ) → 0 + n ≡ n
        zero_plus n = omega arith

    pub write_available_events-Available :
        (repo repo' : MemoryRepository) (r r' : RunRecord) (c cursor : ℕ) (sent : List Frame)
        → IsWellFormed repo
        → lookup id repo.runs ≡ some r
        → lookup id repo'.runs ≡ some r'
        → length (events_of repo id) < 2 ^ 64
        → Progress repo c cursor sent
        → Available repo c cursor r'
            (write_available_events (memory_repository enc) json accepts repo repo' id cursor sent)
    unfolding write_available_events get_run
    write_available_events-Available repo repo' r r' c cursor sent w found found' short p =
        by_list p.front.0 p.front.1
      where
        by_list :
            (back : List RunEvent)
            → drop c (events_of repo id) ≡ delivered sent ++ back
            → Available repo c cursor r' (
                write_available_events
                  (memory_repository enc)
                  json
                  accepts
                  repo
                  repo'
                  id
                  cursor
                  sent)
        by_list [] split =
            rw
              (
                (listed repo r c cursor sent [] w found short p.position split).0,
                write_available_events,
              )
              (rw (found', get_run)
                (all_sent (is_terminal r'.status) cursor refl (split ∙ append-nil _) p.position
                  (omega arith) (λ t. inr t)))
        by_list (event ∷ events) split =
            let (lists, behind) =
              listed repo r c cursor sent (event ∷ events) w found short p.position split in
            rw (lists, write_available_events)
              (Delivers-Available repo c cursor sent event events r' _ p.position split (
                write_events-Delivers json accepts id (event ∷ events) sent cursor false
                  (behind-Numbered repo r cursor event events w found short behind).0
                  (behind-Numbered repo r cursor event events w found short behind).1))
