-- ===== src/Http/Delivery.antt =====
-- internal/httpapi/handler.go over internal/store/memory.go: what a stream delivers.
use reliable_agent_runtime.Prelude.{
  List, String, [], ap, append-nil, arith, drop, false, if◌then◌else◌, inl, inr, length,
  length-append, lookup, ltb, refl, some, subst, sym, true, ℕ, ◌++◌, ◌+◌, ◌<◌, ◌^◌, ◌∙◌, ◌∷◌, ◌≡◌,
  ◌≢◌, ◌≤◌, ◌⊎◌,
}
use reliable_agent_runtime.Domain.{RunEvent}
use reliable_agent_runtime.Http.Available.{
  Available, Progress, all_sent, cut_short, write_available_events-Available,
}
use reliable_agent_runtime.Http.Cursors.{
  MemoryRound, Prefix, Prefix-extended, Quiet, after_rounds, after_rounds-events,
  after_rounds-terminal, rounds_of,
}
use reliable_agent_runtime.Http.Events.{
  Connection, Frame, Stream, stream_loop, terminal_seen, write_available_events,
}
use reliable_agent_runtime.Http.Frames.{
  EndsLast, EndsLast-drop, any_ends, delivered, nothing_follows, woken-cases,
}
use reliable_agent_runtime.Http.Request.{JsonCodec}
use reliable_agent_runtime.Store.{Encoders, RunRecord, is_terminal}
use reliable_agent_runtime.Store.History.{history}
use reliable_agent_runtime.Store.Implementation.{memory_repository}
use reliable_agent_runtime.Store.Memory.{MemoryRepository}
use reliable_agent_runtime.Store.Preservation.{history-IsWellFormed}
use reliable_agent_runtime.Store.Resume.{history-events}
use reliable_agent_runtime.Store.WellFormed.{IsWellFormed, events_of}

module _ (enc : Encoders) (json : JsonCodec) (accepts : Connection) (id : String) (c : ℕ) where
  -- A stream behind c, against the events that the run has in the end.
  pub record IsDelivered (end_repo : MemoryRepository) (rounds : List (MemoryRound enc))
      (stream : Stream) : Type 0 where
    pub in_order : Prefix (delivered stream.frames) (drop c (events_of end_repo id))
    pub complete :
        stream.end ≡ terminal_seen
        → Quiet enc rounds
        → EndsLast (events_of end_repo id)
        → drop c (events_of end_repo id) ≡ delivered stream.frames

  abbrev loop : MemoryRepository → ℕ → List Frame → List (MemoryRound enc) → Stream
  loop repo cursor sent rounds =
      stream_loop (memory_repository enc) json accepts id repo cursor sent (rounds_of enc rounds)

  -- A stream that ends without having seen the end of the run.
  cut_off :
      (repo : MemoryRepository) {end_repo : MemoryRepository} {rounds : List (MemoryRound enc)}
      (stream : Stream) (new : List RunEvent)
      → events_of end_repo id ≡ events_of repo id ++ new
      → stream.end ≢ terminal_seen
      → Prefix (delivered stream.frames) (drop c (events_of repo id))
      → IsDelivered end_repo rounds stream
  cut_off repo {end_repo} stream new e early front = record {
    in_order =
        Prefix-extended enc c (delivered stream.frames) (events_of repo id) new
          (events_of end_repo id) e front;
    complete = λ over quiet last. absurd (early over);
  }

  -- Nothing comes behind a terminal event that was sent.
  seen_last :
      (sent all : List RunEvent)
      → Prefix sent (drop c all)
      → any_ends sent ≡ true
      → EndsLast all
      → drop c all ≡ sent
  seen_last sent all (back, split) ending last =
      split
      ∙ ap (λ xs. sent ++ xs)
          (nothing_follows sent back ending (subst EndsLast split (EndsLast-drop c all last)))
      ∙ append-nil sent

  stops :
      (repo : MemoryRepository) (r r' : RunRecord) (m : MemoryRound enc)
      (ms : List (MemoryRound enc)) (sent : List Frame) (cursor : ℕ)
      → IsWellFormed repo
      → lookup id repo.runs ≡ some r
      → lookup id (history enc repo m.between).runs ≡ some r'
      → drop c (events_of repo id) ≡ delivered sent
      → (any_ends (delivered sent) ≡ true) ⊎ (is_terminal r'.status ≡ true)
      → IsDelivered
          (after_rounds enc repo (m ∷ ms))
          (m ∷ ms)
          (record { frames = sent; cursor = cursor; end = terminal_seen })
  unfolding history
  stops repo r r' m ms sent cursor w found found' all_seen why =
      let (new, e) = after_rounds-events enc repo (m ∷ ms) id r w found in
      let front =
        Prefix-extended enc c (delivered sent) (events_of repo id) new
          (events_of (after_rounds enc repo (m ∷ ms)) id) e ([], all_seen ∙ sym (append-nil _)) in
      record {
        in_order = front;
        complete = λ over quiet last. elim why [
          | inl ending ↦ seen_last (delivered sent) _ front ending last
          | inr t ↦
              ap (drop c) (
                after_rounds-terminal enc repo (m ∷ ms) id r w found
                  (ground (arith, found, rw quiet.0 at found', t)))
              ∙ all_seen
        ];
      }

  earlier :
      {end_repo : MemoryRepository} {stream : Stream} (m : MemoryRound enc)
      (ms : List (MemoryRound enc))
      → IsDelivered end_repo ms stream
      → IsDelivered end_repo (m ∷ ms) stream
  earlier m ms d = record {
    in_order = d.in_order;
    complete = λ over quiet last. d.complete over quiet.1 last;
  }

  latest : (cursor next : ℕ) → cursor ≤ next → (if ltb cursor next then next else cursor) ≡ next
  latest cursor next le = ground (arith, le)

  -- After all events up to now are sent, the next round starts from the calls' new ones.
  progress :
      (repo repo' : MemoryRepository) (sent : List Frame) (next : ℕ) (new : List RunEvent)
      → events_of repo' id ≡ events_of repo id ++ new
      → drop c (events_of repo id) ≡ delivered sent
      → next ≡ c + length (delivered sent)
      → Progress id repo' c next sent
  progress repo repo' sent next new e all_seen position = record {
    position = position;
    front =
        Prefix-extended enc c (delivered sent) (events_of repo id) new (events_of repo' id) e
          ([], all_seen ∙ sym (append-nil _));
  }

  round-IsDelivered :
      (repo : MemoryRepository) (r r' : RunRecord) (cursor : ℕ) (sent : List Frame)
      (m : MemoryRound enc) (ms : List (MemoryRound enc)) (new : List RunEvent)
      → IsWellFormed repo
      → lookup id repo.runs ≡ some r
      → lookup id (history enc repo m.between).runs ≡ some r'
      → events_of (after_rounds enc repo (m ∷ [])) id ≡ events_of repo id ++ new
      → Available id repo c cursor r' (
          write_available_events
            (memory_repository enc)
            json
            accepts
            repo
            (history enc repo m.between)
            id
            cursor
            sent)
      → ((cursor : ℕ) (sent : List Frame)
          → Progress id (after_rounds enc repo (m ∷ [])) c cursor sent
          → IsDelivered
              (after_rounds enc repo (m ∷ ms))
              ms
              (loop (after_rounds enc repo (m ∷ [])) cursor sent ms))
      → IsDelivered (after_rounds enc repo (m ∷ ms)) (m ∷ ms) (loop repo cursor sent (m ∷ ms))
  unfolding stream_loop
  round-IsDelivered repo r r' cursor sent m ms new w found found' e (cut_short outcome front) ih =
      let (new', e') = after_rounds-events enc repo (m ∷ ms) id r w found in
      rw (outcome, stream_loop) (cut_off repo _ new' e' (λ over. ground (arith, over)) front)
  round-IsDelivered repo r r' cursor sent m ms new w found found' e
        (all_sent true next outcome split position le why) ih =
      rw (outcome, stream_loop) (stops repo r r' m ms _ _ w found found' split (why refl))
  round-IsDelivered repo r r' cursor sent m ms new w found found' e
        (all_sent false next outcome split position le why) ih =
      let (new', e') = after_rounds-events enc repo (m ∷ ms) id r w found in
      let w' =
        write_available_events (memory_repository enc) json accepts repo
          (history enc repo m.between) id cursor sent in
      rw (outcome, stream_loop)
        (elim (woken-cases accepts m.awake w'.sent) [
          | inr (end, woke, early) ↦
              rw woke (cut_off repo _ new' e' early ([], split ∙ sym (append-nil _)))
          | inl (frames, woke, same) ↦
              rw (woke, latest cursor next le)
                (earlier m ms (
                  ih next frames (
                    progress repo _ frames next new e (split ∙ sym same)
                      (position ∙ ap (λ es. c + length es) (sym same)))))
        ])

  loop-IsDelivered :
      (repo : MemoryRepository) (r : RunRecord) (cursor : ℕ) (sent : List Frame)
      (rounds : List (MemoryRound enc))
      → IsWellFormed repo
      → lookup id repo.runs ≡ some r
      → length (events_of (after_rounds enc repo rounds) id) < 2 ^ 64
      → Progress id repo c cursor sent
      → IsDelivered (after_rounds enc repo rounds) rounds (loop repo cursor sent rounds)
  unfolding stream_loop
  loop-IsDelivered repo r cursor sent [] w found short p =
      cut_off repo _ [] (sym (append-nil _)) (λ e. cc e) p.front
  loop-IsDelivered repo r cursor sent (m ∷ ms) w found short p =
      let (r1, new1, found1, e1) = history-events enc repo m.between id r w found in
      let w1 = history-IsWellFormed enc repo m.between w in
      let (r2, new2, found2, e2) =
        history-events enc (history enc repo m.between) m.next id r1 w1 found1 in
      let w2 = history-IsWellFormed enc (history enc repo m.between) m.next w1 in
      let (new, e) = after_rounds-events enc repo (m ∷ []) id r w found in
      let (all_new, all_e) = after_rounds-events enc repo (m ∷ ms) id r w found in
      round-IsDelivered repo r r1 cursor sent m ms new w found found1 e
        (write_available_events-Available id enc json accepts repo (history enc repo m.between) r r1
          c cursor sent w found found1
          (omega (arith, short, ap length all_e, length-append (events_of repo id) all_new)) p)
        (λ cursor' sent' p'.
          loop-IsDelivered (after_rounds enc repo (m ∷ [])) r2 cursor' sent' ms w2 found2 short p')

  -- An event stream that was opened behind a cursor, on a well-formed memory repository and with any
  -- calls in its rounds, sends events of the run from there on, in their order, without a gap or a
  -- repetition. If it ends because the run has ended, no call came between the two reads of a round,
  -- and only the run's last event is a terminal one, it has sent all of them. The run is there and
  -- has fewer than 2^64 events in the end.
  pub stream_loop-IsDelivered :
      (repo : MemoryRepository) (r : RunRecord) (rounds : List (MemoryRound enc))
      → IsWellFormed repo
      → lookup id repo.runs ≡ some r
      → length (events_of (after_rounds enc repo rounds) id) < 2 ^ 64
      → IsDelivered
          (after_rounds enc repo rounds)
          rounds
          (stream_loop (memory_repository enc) json accepts id repo c [] (rounds_of enc rounds))
  stream_loop-IsDelivered repo r rounds w found short =
      loop-IsDelivered repo r c [] rounds w found short
        (record { position = omega arith; front = (drop c (events_of repo id), refl) })
