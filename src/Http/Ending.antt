-- ===== src/Http/Ending.antt =====
-- internal/httpapi/handler.go over internal/store/memory.go: streams of runs that have ended, or
-- that end while the stream looks.
use reliable_agent_runtime.Prelude.{
  All, Bool, List, Option, Option-cases, String, [], ap, append-nil, arith, drop, false,
  if◌then◌else◌, inl, inr, length, lookup, ltb, none, ok, refl, some, suc, sym, true, zero, ℕ, ◌++◌,
  ◌+◌, ◌<◌, ◌^◌, ◌||◌, ◌∙◌, ◌∷◌, ◌≡◌, ◌≢◌,
}
use reliable_agent_runtime.Domain.{EventType, FinalResult, RunEvent, RunStatus, Time}
use reliable_agent_runtime.Http.Available.{behind-Numbered, listed}
use reliable_agent_runtime.Http.Cursors.{MemoryRound, rounds_of}
use reliable_agent_runtime.Http.Events.{
  Connection, Frame, Written, ends_run, event_frame, stream_loop, terminal_seen, write,
  write_available_events, write_events,
}
use reliable_agent_runtime.Http.Frames.{
  Delivers, all_written, any_ends, any_ends-last, delivered, interrupted, write_events-Delivers,
}
use reliable_agent_runtime.Http.Request.{JsonCodec}
use reliable_agent_runtime.Store.{Encoders, RunRecord, is_terminal, terminal_event_for_status}
use reliable_agent_runtime.Store.History.{finishes, history, step}
use reliable_agent_runtime.Store.Implementation.{finish_run-IsOver, memory_repository}
use reliable_agent_runtime.Store.Memory.{MemoryRepository, finish_run, get_run}
use reliable_agent_runtime.Store.Resume.{drop-append}
use reliable_agent_runtime.Store.Terminal.{history-terminal}
use reliable_agent_runtime.Store.WellFormed.{
  IsWellFormed, Life, events_of, held, last_type, settled, unleased,
}

last_type-drop :
    (n : ℕ) (es : List RunEvent) (e : RunEvent) (rest : List RunEvent)
    → drop n es ≡ e ∷ rest
    → last_type es ≡ last_type (e ∷ rest)
last_type-drop zero es e rest h = ap last_type h
last_type-drop (suc n) [] e rest h = absurd (ground (arith, h))
last_type-drop (suc n) (x ∷ []) e rest h = absurd (only_one n h)
  where
    only_one : (n : ℕ) → ¬ (drop n [] ≡ e ∷ rest)
    only_one zero h' = ground (arith, h')
    only_one (suc n) h' = ground (arith, h')
last_type-drop (suc n) (x ∷ y ∷ es) e rest h = last_type-drop n (y ∷ es) e rest h

terminal-ends_run :
    (s : RunStatus) (type : EventType)
    → terminal_event_for_status s ≡ some type
    → ends_run type ≡ true
unfolding terminal_event_for_status ends_run
terminal-ends_run s type h = ground (arith, h)

settled-last :
    (r : RunRecord) (last : Option EventType)
    → is_terminal r.status ≡ true
    → Life r last
    → (type : EventType) × (last ≡ some type) × (ends_run type ≡ true)
unfolding is_terminal terminal_event_for_status
settled-last r last t (unleased starts a b d) = absurd (ground (arith, t, starts))
settled-last r last t (held runs' a b) = absurd (ground (arith, t, runs'))
settled-last r last t (settled f t' a b d e) =
    elim (Option-cases (terminal_event_for_status r.status)) [
      | inl nothing ↦ absurd (ground (arith, nothing, t))
      | inr (type, some_type) ↦ (type, e ∙ some_type, terminal-ends_run r.status type some_type)
    ]

-- `json.Marshal` takes each of these events.
abbrev pub AllEncode : JsonCodec → List RunEvent → Type 0
AllEncode json = All (λ event. json.marshal_event event ≢ none)

module _ (json : JsonCodec) (accepts : Connection) (open_line : (n : ℕ) → accepts n ≡ true) where
  write_events_kept :
      (events : List RunEvent) (sent : List Frame) (latest : ℕ) (terminal : Bool)
      → AllEncode json events
      → (write_events json accepts events sent latest terminal).outcome ≢ none
  unfolding write_events write
  write_events_kept [] sent latest terminal encode e = ground (arith, e)
  write_events_kept (event ∷ events) sent latest terminal encode e =
      elim (Option-cases (json.marshal_event event)) [
        | inl bad ↦ encode.0 bad
        | inr (encoded, marshalled) ↦
            write_events_kept events (sent ++ event_frame event encoded ∷ []) event.sequence
              (terminal || ends_run event.type) encode.1
              (rw (open_line (length sent)) at (rw (marshalled, write_events) at e))
      ]

  module _ (enc : Encoders) (id : String) where
    all_listed :
        (repo repo' : MemoryRepository) (r : RunRecord) (c : ℕ)
        → IsWellFormed repo
        → lookup id repo.runs ≡ some r
        → lookup id repo'.runs ≡ some r
        → is_terminal r.status ≡ true
        → length (events_of repo id) < 2 ^ 64
        → (back : List RunEvent) → drop c (events_of repo id) ≡ back
        → AllEncode json back
        → let w = write_available_events (memory_repository enc) json accepts repo repo' id c [] in
          (next : ℕ) × (w.outcome ≡ some (true, next)) × (delivered w.sent ≡ back)
    unfolding write_available_events get_run
    all_listed repo repo' r c w found found' t short [] split encode =
        rw
          (
            (listed id enc json accepts repo r c c [] [] w found short (omega arith) split).0,
            write_available_events,
          )
          (rw (found', get_run) (c, ap (λ b. some (b, c)) t, refl))
    all_listed repo repo' r c w found found' t short (event ∷ events) split encode =
        let numbered =
          behind-Numbered id enc json accepts repo r c event events w found short split in
        rw
          (
            (listed id enc json accepts repo r c c [] (event ∷ events) w found short (omega arith)
                split).0,
            write_available_events,
          )
          (from_Delivers (write_events json accepts (event ∷ events) [] c false)
            (write_events_kept (event ∷ events) [] c false encode)
            (write_events-Delivers json accepts id (event ∷ events) [] c false numbered.0
              numbered.1))
      where
        ends_there : any_ends (event ∷ events) ≡ true
        ends_there =
            let (type, last, over) =
              settled-last r (last_type (events_of repo id)) t (w.consistent id r found).life in
            any_ends-last (event ∷ events) type
              (sym (last_type-drop c (events_of repo id) event events split) ∙ last) over

        from_Delivers :
            (written : Written)
            → written.outcome ≢ none
            → Delivers (event ∷ events) [] c false written
            → (next : ℕ) × (written.outcome ≡ some (true, next))
              × (delivered written.sent ≡ event ∷ events)
        from_Delivers written kept (all_written outcome sends) = (
          c + length (event ∷ events),
          outcome ∙ ap (λ b. some (b, c + length (event ∷ events))) ends_there,
          sends,
        )
        from_Delivers written kept (interrupted front back outcome _ _) = absurd (kept outcome)

    -- The stream of a run that has ended, to a client that takes every write, ends in its first
    -- round, with all the events behind the cursor; on a well-formed memory repository, for fewer
    -- than 2^64 events of the run, if `json.Marshal` takes each of those behind the cursor.
    pub stream_loop_ends :
        (repo : MemoryRepository) (r : RunRecord) (c : ℕ) (m : MemoryRound enc)
        (ms : List (MemoryRound enc))
        → IsWellFormed repo
        → lookup id repo.runs ≡ some r
        → is_terminal r.status ≡ true
        → length (events_of repo id) < 2 ^ 64
        → AllEncode json (drop c (events_of repo id))
        → let stream =
            stream_loop
              (memory_repository enc)
              json
              accepts
              id
              repo
              c
              []
              (rounds_of enc (m ∷ ms)) in
          (stream.end ≡ terminal_seen) × (delivered stream.frames ≡ drop c (events_of repo id))
    unfolding stream_loop
    stream_loop_ends repo r c m ms w found t short encode =
        let (next, outcome, sends) =
          all_listed repo (history enc repo m.between) r c w found
            (history-terminal enc repo m.between id r w found t).0 t short
            (drop c (events_of repo id)) refl encode in
        rw (outcome, stream_loop) (refl, sends)

same_cursor : (n : ℕ) → (if ltb n n then n else n) ≡ n
same_cursor n = ground arith

-- If FinishRun succeeds between the two reads of a round, for a client that had all events before,
-- the stream ends as after the end of the run and sends nothing: not the terminal event that
-- FinishRun has just added. The repository is well-formed and the run has fewer than 2^64 events.
pub stream_loop_race :
    (enc : Encoders) (json : JsonCodec) (accepts : Connection) (repo : MemoryRepository)
    (id worker : String) (fence : ℕ) (result : FinalResult) (type : EventType) (now : Time)
    (event : RunEvent) (r : RunRecord) (m : MemoryRound enc) (ms : List (MemoryRound enc))
    → IsWellFormed repo
    → lookup id repo.runs ≡ some r
    → length (events_of repo id) < 2 ^ 64
    → (finish_run enc repo id worker fence result type now).1 ≡ ok event
    → m.between ≡ finishes id worker fence result type now ∷ []
    → let seen = length (events_of repo id) in
      stream_loop (memory_repository enc) json accepts id repo seen [] (rounds_of enc (m ∷ ms))
      ≡ record { frames = []; cursor = seen; end = terminal_seen }
unfolding stream_loop write_available_events history step
stream_loop_race enc json accepts repo id worker fence result type now event r m ms w found short
      finishing only =
    let seen = length (events_of repo id) in
    let (r', read, t, _, _) =
      finish_run-IsOver enc repo id worker fence result type now event finishing in
    let lists =
      (listed id enc json accepts repo r seen seen [] [] w found short (omega arith)
        (ap (drop seen) (sym (append-nil _)) ∙ drop-append (events_of repo id) [])).0 in
    let w' : write_available_events (memory_repository enc) json accepts repo
          (history enc repo m.between) id seen []
        ≡ record { sent = []; outcome = some (true, seen) } =
      rw only (rw (lists, write_available_events) (rw read (rw t refl))) in
    rw (ap (λ w. w.outcome) w', stream_loop)
      (ap
          (λ w. record {
            frames = w.sent;
            cursor = if ltb seen seen then seen else seen;
            end = terminal_seen;
          })
          w'
        ∙ ap (λ k. record { frames = []; cursor = k; end = terminal_seen }) (same_cursor seen))
