-- ===== src/Http/Cursors.antt =====
-- The events of a run behind a cursor, while calls go on adding events.
use reliable_agent_runtime.Prelude.{
  List, String, [], ap, append-nil, append_assoc, arith, drop, lookup, refl, some, suc, sym, true,
  zero, ℕ, ◌++◌, ◌+◌, ◌∙◌, ◌∷◌, ◌≡◌,
}
use reliable_agent_runtime.Domain.{RunEvent}
use reliable_agent_runtime.Http.Events.{StreamRound, Wake}
use reliable_agent_runtime.Store.{Encoders, RunRecord, is_terminal}
use reliable_agent_runtime.Store.History.{Call, history}
use reliable_agent_runtime.Store.Implementation.{memory_repository}
use reliable_agent_runtime.Store.Memory.{MemoryRepository}
use reliable_agent_runtime.Store.Preservation.{history-IsWellFormed}
use reliable_agent_runtime.Store.Resume.{history-events}
use reliable_agent_runtime.Store.Terminal.{history-terminal}
use reliable_agent_runtime.Store.WellFormed.{IsWellFormed, Numbered, events_of}

suc_plus : (n m : ℕ) → suc n + m ≡ suc (n + m)
suc_plus n m = omega arith

drop_nil {ℓ} : {A : Type ℓ} (m : ℕ) → drop {A = A} m [] ≡ []
drop_nil zero = refl
drop_nil (suc m) = refl

pub drop-drop {ℓ} : {A : Type ℓ} (n m : ℕ) (xs : List A) → drop (n + m) xs ≡ drop m (drop n xs)
drop-drop zero m xs = rw (zero_plus m) refl
  where
    zero_plus : (m : ℕ) → 0 + m ≡ m
    zero_plus m = omega arith
drop-drop (suc n) m [] = rw (suc_plus n m) (sym (drop_nil m))
drop-drop (suc n) m (x ∷ xs) = rw (suc_plus n m) (drop-drop n m xs)

pub drop-extended {ℓ} :
    {A : Type ℓ} (n : ℕ) (xs new : List A)
    → (rest : List A) × (drop n (xs ++ new) ≡ drop n xs ++ rest)
drop-extended zero xs new = (new, refl)
drop-extended (suc n) [] new = (drop (suc n) new, refl)
drop-extended (suc n) (x ∷ xs) new = drop-extended n xs new

pub Numbered-drop :
    (id : String) (k n : ℕ) (es : List RunEvent)
    → Numbered id k es
    → Numbered id (k + n) (drop n es)
Numbered-drop id k zero es h = rw (plus_zero k) h
  where
    plus_zero : (k : ℕ) → k + 0 ≡ k
    plus_zero k = omega arith
Numbered-drop id k (suc n) [] h = tt
Numbered-drop id k (suc n) (e ∷ es) h = rw (shift k n) (Numbered-drop id (k + 1) n es h.2)
  where
    shift : (k n : ℕ) → k + suc n ≡ k + 1 + n
    shift k n = omega arith

-- A list that starts with another.
abbrev pub Prefix : List RunEvent → List RunEvent → Type 0
Prefix front whole = (back : List RunEvent) × (whole ≡ front ++ back)

module _ (enc : Encoders) where
  -- What one round of a stream finds in the memory repository: the calls between its two reads,
  -- what wakes it, and the calls until then.
  pub record MemoryRound : Type 0 where
    pub between : List Call
    pub awake : Wake
    pub next : List Call

  abbrev pub round_of : MemoryRound → StreamRound (memory_repository enc)
  round_of m = record {
    meanwhile = λ repo. history enc repo m.between;
    wake = m.awake;
    later = λ repo. history enc repo m.next;
  }

  abbrev pub rounds_of : List MemoryRound → List (StreamRound (memory_repository enc))
  rounds_of [] = []
  rounds_of (m ∷ ms) = round_of m ∷ rounds_of ms

  abbrev pub after_rounds : MemoryRepository → List MemoryRound → MemoryRepository
  after_rounds repo [] = repo
  after_rounds repo (m ∷ ms) = after_rounds (history enc (history enc repo m.between) m.next) ms

  -- No call comes between the two reads of a round.
  abbrev pub Quiet : List MemoryRound → Type 0
  Quiet [] = Unit
  Quiet (m ∷ ms) = (m.between ≡ []) × Quiet ms

  pub after_rounds-events :
      (repo : MemoryRepository) (rounds : List MemoryRound) (id : String) (r : RunRecord)
      → IsWellFormed repo
      → lookup id repo.runs ≡ some r
      → (new : List RunEvent) × (events_of (after_rounds repo rounds) id ≡ events_of repo id ++ new)
  after_rounds-events repo [] id r w found = ([], sym (append-nil _))
  after_rounds-events repo (m ∷ ms) id r w found =
      let (r1, new1, found1, e1) = history-events enc repo m.between id r w found in
      let w1 = history-IsWellFormed enc repo m.between w in
      let (r2, new2, found2, e2) =
        history-events enc (history enc repo m.between) m.next id r1 w1 found1 in
      let (new3, e3) =
        after_rounds-events (history enc (history enc repo m.between) m.next) ms id r2
          (history-IsWellFormed enc (history enc repo m.between) m.next w1) found2 in
      (
        (new1 ++ new2) ++ new3,
        e3
            ∙ ap (λ es. es ++ new3)
                (e2 ∙ ap (λ es. es ++ new2) e1 ∙ append_assoc (events_of repo id) new1 new2)
            ∙ append_assoc (events_of repo id) (new1 ++ new2) new3,
      )

  -- A prefix of what stands behind the cursor remains one.
  pub Prefix-extended :
      (c : ℕ) (front es new all : List RunEvent)
      → all ≡ es ++ new
      → Prefix front (drop c es)
      → Prefix front (drop c all)
  Prefix-extended c front es new all e (back, split) =
      let (rest, extended') = drop-extended c es new in
      (
        back ++ rest,
        ap (drop c) e ∙ extended' ∙ ap (λ xs. xs ++ rest) split ∙ append_assoc front back rest,
      )

  pub after_rounds-terminal :
      (repo : MemoryRepository) (rounds : List MemoryRound) (id : String) (r : RunRecord)
      → IsWellFormed repo
      → lookup id repo.runs ≡ some r
      → is_terminal r.status ≡ true
      → events_of (after_rounds repo rounds) id ≡ events_of repo id
  after_rounds-terminal repo [] id r w found t = refl
  after_rounds-terminal repo (m ∷ ms) id r w found t =
      let (found1, e1) = history-terminal enc repo m.between id r w found t in
      let w1 = history-IsWellFormed enc repo m.between w in
      let (found2, e2) =
        history-terminal enc (history enc repo m.between) m.next id r w1 found1 t in
      after_rounds-terminal (history enc (history enc repo m.between) m.next) ms id r
        (history-IsWellFormed enc (history enc repo m.between) m.next w1) found2 t
      ∙ e2
      ∙ e1
