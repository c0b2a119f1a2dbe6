-- ===== src/Store/Records.antt =====
-- Each record that a change writes is consistent with the events of its run.
use reliable_agent_runtime.Prelude.{
  List, String, [], ap, arith, eq_iff, false, length, length-append, none, refl, some, sym, true,
  u64, ℕ, ◌++◌, ◌+◌, ◌<◌, ◌||◌, ◌∙◌, ◌∷◌, ◌≡◌, ◌≢◌,
}
use reliable_agent_runtime.Domain.{
  Duration, EventType, FinalResult, RawMessage, RunEvent, RunRequest, RunStatus, Time, add_time,
  is_running, is_waiting, queued, retry_wait, running,
}
use reliable_agent_runtime.Store.{RunRecord, is_terminal, terminal_event_for_status}
use reliable_agent_runtime.Store.Memory.{
  appended, created_event, extended, finished, holds_lease, is_candidate, leased, next_event,
  queued_record,
}
use reliable_agent_runtime.Store.WellFormed.{
  IsConsistent, Life, Numbered, held, last_type, settled, unleased,
}

pub Numbered-append :
    (id : String) (n : ℕ) (es : List RunEvent) (e : RunEvent)
    → e.run_id ≡ id
    → e.sequence ≡ u64 (n + length es + 1)
    → Numbered id n es
    → Numbered id n (es ++ e ∷ [])
Numbered-append id n [] e named number h = (named, omega arith, tt)
Numbered-append id n (x ∷ es) e named number h =
    (h.0, h.1, Numbered-append id (n + 1) es e named (omega arith) h.2)

pub last_type-append : (es : List RunEvent) (e : RunEvent) → last_type (es ++ e ∷ []) ≡ some e.type
last_type-append [] e = refl
last_type-append (x ∷ []) e = refl
last_type-append (x ∷ y ∷ es) e = last_type-append (y ∷ es) e

pub queued_record-IsConsistent :
    (request : RunRequest) (hash : String) (payload : RawMessage) (now : Time)
    → IsConsistent request.run_id
        (queued_record request hash now)
        (created_event request.run_id payload now ∷ [])
unfolding queued_record
queued_record-IsConsistent request hash payload now = record {
  keyed = refl;
  numbered = (refl, refl, tt);
  counted = refl;
  attempts = refl;
  in_range = omega arith;
  life = unleased refl refl refl refl;
}

-- Neither a run that may be leased nor one that is leased has ended.
pub is_candidate-not_terminal :
    (now : Time) (r : RunRecord) → is_candidate now r ≡ true → is_terminal r.status ≡ false
unfolding is_candidate is_terminal
is_candidate-not_terminal now r c = waiting r.status (ground (arith, c))
  where
    waiting : (s : RunStatus) → (is_waiting s || is_running s) ≡ true → is_terminal s ≡ false
    waiting queued h = refl
    waiting retry_wait h = refl
    waiting running h = refl
    waiting _ h = cc

pub running-not_terminal : (s : RunStatus) → s ≡ running → is_terminal s ≡ false
unfolding is_terminal
running-not_terminal s h = rw h

pub terminal_event_for_status-is_terminal :
    (s : RunStatus) (type : EventType)
    → terminal_event_for_status s ≡ some type
    → is_terminal s ≡ true
unfolding terminal_event_for_status is_terminal
terminal_event_for_status-is_terminal s type h = ground arith

pub leased-IsConsistent :
    (id : String) (r : RunRecord) (es : List RunEvent) (worker : String) (now : Time)
    (ttl : Duration)
    → worker ≢ ""
    → is_candidate now r ≡ true
    → IsConsistent id r es
    → IsConsistent id (leased r worker now ttl) es
unfolding leased is_candidate
leased-IsConsistent id r es worker now ttl named c h = record {
  keyed = h.keyed;
  numbered = h.numbered;
  counted = h.counted;
  attempts = ap (λ n. u64 (n + 1)) h.attempts;
  in_range = omega arith;
  life = held refl named (unsettled h.life);
}
  where
    unsettled : Life r (last_type es) → r.final_result ≡ none
    unsettled (unleased _ _ e _) = e
    unsettled (held _ _ e) = e
    unsettled (settled f t _ _ _ _) = absurd (ground (arith, t, is_candidate-not_terminal now r c))

pub holds_lease-running :
    (r : RunRecord) (worker : String) (fence : ℕ) (now : Time)
    → holds_lease r worker fence now ≡ true
    → (r.status ≡ running)
      × (r.lease_owner ≡ worker)
      × (worker ≢ "")
      × (r.fence_token ≡ fence)
      × (now < r.lease_until)
unfolding holds_lease
holds_lease-running r worker fence now h =
    ground (arith, eq_iff worker "", eq_iff r.lease_owner worker)

pub leased_is_open :
    (r : RunRecord) (worker : String) (fence : ℕ) (now : Time)
    → holds_lease r worker fence now ≡ true
    → ¬ (is_terminal r.status ≡ true)
leased_is_open r worker fence now holds t =
    ground
      (arith, t, running-not_terminal r.status (holds_lease-running r worker fence now holds).0)

pub extended-IsConsistent :
    (id : String) (r : RunRecord) (es : List RunEvent) (now : Time) (ttl : Duration)
    → IsConsistent id r es
    → IsConsistent id (extended r now ttl) es
unfolding extended
extended-IsConsistent id r es now ttl h = record {
  keyed = h.keyed;
  numbered = h.numbered;
  counted = h.counted;
  attempts = h.attempts;
  in_range = h.in_range;
  life = same_life h.life;
}
  where
    same_life :
        Life r (last_type es)
        → Life (record r { lease_until = add_time now ttl; updated_at = now }) (last_type es)
    same_life (unleased a b c d) = unleased a b c d
    same_life (held a b c) = held a b c
    same_life (settled f a b c d e) = settled f a b c d e

module _ (id : String) (r : RunRecord) (es : List RunEvent) (type : EventType)
    (payload : RawMessage) (now : Time) (h : IsConsistent id r es)
    (running_now : r.status ≡ running) where
  Numbered-next : Numbered id 0 (es ++ next_event r type payload now ∷ [])
  unfolding next_event
  Numbered-next = Numbered-append id 0 es _ h.keyed (omega (arith, h.counted)) h.numbered

  counted_next :
      (next_event r type payload now).sequence
      ≡ u64 (length (es ++ next_event r type payload now ∷ []))
  unfolding next_event
  counted_next = omega (arith, h.counted, length-append es (next_event r type payload now ∷ []))

  held_now : (r.lease_owner ≢ "") × (r.final_result ≡ none)
  held_now = go h.life
    where
      go : Life r (last_type es) → (r.lease_owner ≢ "") × (r.final_result ≡ none)
      go (unleased s _ _ _) = absurd (cc (s, running_now))
      go (held _ a b) = (a, b)
      go (settled f t _ _ _ _) =
          absurd (ground (arith, t, running-not_terminal r.status running_now))

  pub appended-IsConsistent :
      IsConsistent id (appended r type payload now) (es ++ next_event r type payload now ∷ [])
  unfolding appended
  appended-IsConsistent = record {
    keyed = h.keyed;
    numbered = Numbered-next;
    counted = counted_next;
    attempts = h.attempts;
    in_range = h.in_range;
    life = held running_now held_now.0 held_now.1;
  }

  pub finished-IsConsistent :
      (result : FinalResult)
      → terminal_event_for_status result.status ≡ some type
      → IsConsistent id
          (finished r result (next_event r type payload now) now)
          (es ++ next_event r type payload now ∷ [])
  unfolding finished next_event terminal_event_for_status
  finished-IsConsistent result t = record {
    keyed = h.keyed;
    numbered = Numbered-next;
    counted = counted_next;
    attempts = h.attempts;
    in_range = h.in_range;
    life =
        settled result (terminal_event_for_status-is_terminal result.status type t) refl refl refl
          (last_type-append es (next_event r type payload now) ∙ sym t);
  }
