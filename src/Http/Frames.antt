-- ===== src/Http/Frames.antt =====
-- internal/httpapi/handler.go: which events a list of frames carries, and what the loop of
-- writeAvailableEvents adds to it.
use reliable_agent_runtime.Prelude.{
  Bool, List, Option-cases, String, [], ap, append-nil, append_assoc, arith, drop, err, false, inl,
  inr, length, none, ok, refl, some, suc, sym, true, zero, ℕ, ◌++◌, ◌+◌, ◌<◌, ◌^◌, ◌||◌, ◌∙◌, ◌∷◌,
  ◌≡◌, ◌≢◌, ◌⊎◌,
}
use reliable_agent_runtime.Domain.{EventType, RunEvent}
use reliable_agent_runtime.Http.Events.{
  Connection, Frame, StreamEnd, Wake, Written, client_gone, ends_run, event_frame, heartbeat_frame,
  heartbeat_tick, poll_tick, request_done, stream_broken, terminal_seen, woken, write, write_events,
}
use reliable_agent_runtime.Http.Request.{JsonCodec}
use reliable_agent_runtime.Store.Memory.{written}
use reliable_agent_runtime.Store.WellFormed.{Numbered, last_type}

abbrev pub delivered : List Frame → List RunEvent
delivered [] = []
delivered (event_frame event encoded ∷ frames) = event ∷ delivered frames
delivered (heartbeat_frame ∷ frames) = delivered frames

abbrev pub any_ends : List RunEvent → Bool
any_ends [] = false
any_ends (event ∷ events) = ends_run event.type || any_ends events

-- Only the last event, if any, says that the run is over.
abbrev pub EndsLast : List RunEvent → Type 0
EndsLast [] = Unit
EndsLast (event ∷ []) = Unit
EndsLast (event ∷ next ∷ events) = (ends_run event.type ≡ false) × EndsLast (next ∷ events)

pub delivered-append : (xs ys : List Frame) → delivered (xs ++ ys) ≡ delivered xs ++ delivered ys
delivered-append [] ys = refl
delivered-append (event_frame event encoded ∷ xs) ys =
    ap (λ es. event ∷ es) (delivered-append xs ys)
delivered-append (heartbeat_frame ∷ xs) ys = delivered-append xs ys

EndsLast-tail :
    (event : RunEvent) (events : List RunEvent) → EndsLast (event ∷ events) → EndsLast events
EndsLast-tail event [] h = tt
EndsLast-tail event (next ∷ events) h = h.1

pub EndsLast-drop : (n : ℕ) (events : List RunEvent) → EndsLast events → EndsLast (drop n events)
EndsLast-drop zero events h = h
EndsLast-drop (suc n) [] h = h
EndsLast-drop (suc n) (event ∷ events) h = EndsLast-drop n events (EndsLast-tail event events h)

pub EndsLast-rest : (front back : List RunEvent) → EndsLast (front ++ back) → EndsLast back
EndsLast-rest [] back h = h
EndsLast-rest (event ∷ front) back h = EndsLast-rest front back (EndsLast-tail event _ h)

-- What follows a terminal event is nothing.
pub nothing_follows :
    (front back : List RunEvent) → any_ends front ≡ true → EndsLast (front ++ back) → back ≡ []
nothing_follows [] back ending h = absurd (ground (arith, ending))
nothing_follows (event ∷ []) [] ending h = refl
nothing_follows (event ∷ []) (next ∷ back) ending h = absurd (ground (arith, ending, h.0))
nothing_follows (event ∷ next ∷ front) back ending h =
    nothing_follows (next ∷ front) back (ground (arith, ending, h.0)) h.1

pub any_ends-last :
    (events : List RunEvent) (type : EventType)
    → last_type events ≡ some type
    → ends_run type ≡ true
    → any_ends events ≡ true
any_ends-last [] type last ending = absurd (ground (arith, last))
any_ends-last (event ∷ []) type last ending = ground (arith, last, ending)
any_ends-last (event ∷ next ∷ events) type last ending =
    ground (arith, any_ends-last (next ∷ events) type last ending)

write-sent :
    (accepts : Connection) (sent : List Frame) (frame : Frame) (sent' : List Frame)
    → write accepts sent frame ≡ some sent'
    → sent' ≡ sent ++ frame ∷ []
unfolding write
write-sent accepts sent frame sent' e = ground (arith, e)

pub write-delivered :
    (accepts : Connection) (sent : List Frame) (frame : Frame) (sent' : List Frame)
    → write accepts sent frame ≡ some sent'
    → delivered sent' ≡ delivered sent ++ delivered (frame ∷ [])
write-delivered accepts sent frame sent' e =
    ap delivered (write-sent accepts sent frame sent' e) ∙ delivered-append sent (frame ∷ [])

-- The `select` sends no event and does not take the end of the run for seen.
pub woken-cases :
    (accepts : Connection) (wake : Wake) (sent : List Frame)
    → ((sent' : List Frame) × (woken accepts wake sent ≡ ok sent')
        × (delivered sent' ≡ delivered sent))
      ⊎ (end : StreamEnd) × (woken accepts wake sent ≡ err end) × (end ≢ terminal_seen)
unfolding woken
woken-cases accepts request_done sent = inr (client_gone, refl, λ e. ground (arith, e))
woken-cases accepts poll_tick sent = inl (sent, refl, refl)
woken-cases accepts heartbeat_tick sent = elim (Option-cases (write accepts sent heartbeat_frame)) [
  | inl lost ↦ rw (lost, woken) (inr (stream_broken, refl, λ e. ground (arith, e)))
  | inr (sent', beaten) ↦
      rw (beaten, woken)
        (inl
          (sent', refl, write-delivered accepts sent heartbeat_frame sent' beaten ∙ append-nil _))
]

-- What the loop does with the events: all are written, or it stops with an error behind some.
pub data Delivers (events : List RunEvent) (before : List RunEvent) (latest : ℕ) (terminal : Bool)
    (w : Written) : Type 0 where
  all_written :
      w.outcome ≡ some (terminal || any_ends events, latest + length events)
      → delivered w.sent ≡ before ++ events
      → Delivers events before latest terminal w
  interrupted :
      (front back : List RunEvent)
      → w.outcome ≡ none
      → events ≡ front ++ back
      → delivered w.sent ≡ before ++ front
      → Delivers events before latest terminal w

or_assoc : (a b c : Bool) → ((a || b) || c) ≡ (a || (b || c))
or_assoc true b c = refl
or_assoc false b c = refl

Delivers-next :
    (event : RunEvent) (events before after : List RunEvent) (latest : ℕ) (terminal : Bool)
    (w : Written)
    → event.sequence ≡ latest + 1
    → after ≡ before ++ event ∷ []
    → Delivers events after event.sequence (terminal || ends_run event.type) w
    → Delivers (event ∷ events) before latest terminal w
Delivers-next event events before after latest terminal w counting e (all_written outcome d) =
    all_written
      (outcome
        ∙ ap some (λ i. (or_assoc terminal (ends_run event.type) (any_ends events) i, counted i)))
      (d ∙ ap (λ es. es ++ events) e ∙ append_assoc before (event ∷ []) events)
  where
    counted : event.sequence + length events ≡ latest + suc (length events)
    counted = omega (arith, counting)
Delivers-next event events before after latest terminal w counting e
      (interrupted front back outcome split d) =
    interrupted (event ∷ front) back outcome (ap (λ es. event ∷ es) split)
      (d ∙ ap (λ es. es ++ front) e ∙ append_assoc before (event ∷ []) front)

pub write_events-Delivers :
    (json : JsonCodec) (accepts : Connection) (id : String) (events : List RunEvent)
    (sent : List Frame) (latest : ℕ) (terminal : Bool)
    → Numbered id latest events
    → latest + length events < 2 ^ 64
    → Delivers events
        (delivered sent)
        latest
        terminal
        (write_events json accepts events sent latest terminal)
unfolding write_events
write_events-Delivers json accepts id [] sent latest terminal numbered short =
    all_written (ap some (λ i. (or_false terminal i, counted i))) (sym (append-nil _))
  where
    or_false : (b : Bool) → b ≡ (b || false)
    or_false true = refl
    or_false false = refl

    counted : latest ≡ latest + 0
    counted = omega arith
write_events-Delivers json accepts id (event ∷ events) sent latest terminal numbered short =
    elim (Option-cases (json.marshal_event event)) [
      | inl broken ↦
          rw (broken, write_events) (interrupted [] (event ∷ events) refl refl (sym (append-nil _)))
      | inr (encoded, marshalled) ↦
          elim (Option-cases (write accepts sent (event_frame event encoded))) [
            | inl lost ↦
                rw (marshalled, write_events)
                  (rw lost (interrupted [] (event ∷ events) refl refl (sym (append-nil _))))
            | inr (sent', written) ↦
                let counting : event.sequence ≡ latest + 1 = omega (arith, numbered.1, short) in
                rw (marshalled, write_events)
                  (rw written (
                    Delivers-next event events (delivered sent) (delivered sent') latest terminal _
                      counting (write-delivered accepts sent _ sent' written)
                      (write_events-Delivers json accepts id events sent' event.sequence
                        (terminal || ends_run event.type) (rw counting numbered.2)
                        (omega (arith, short, counting)))))
          ]
    ]
