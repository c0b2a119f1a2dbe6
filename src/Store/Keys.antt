-- ===== src/Store/Keys.antt =====
-- internal/store/memory.go: the key under which the map of idempotency finds a run.
use Prim.Native.Char.{Char}
use Prim.Native.String.append
use Prim.Native.String.{◌++◌ as append_str, ◌∷◌ as cons_text}
use reliable_agent_runtime.Prelude.{String, ap, refl, sym, ◌∙◌, ◌≡◌, ◌≢◌}
use reliable_agent_runtime.Domain.{RunRequest}
use reliable_agent_runtime.Store.Memory.{idempotency_map_key}

abbrev nul : Char
nul = "\0"

-- The text has no NUL character.
abbrev pub IsPlain : String → Type 0
IsPlain String.[] = Unit
IsPlain (String.◌∷◌ c s) = (c ≢ nul) × IsPlain s

after_nul : (k : String) → append_str "\0" k ≡ cons_text nul k
after_nul k = append.cons nul "" k ∙ ap (cons_text nul) (append.nil k)

cons_eq : (c d : Char) (s t : String) → cons_text c s ≡ cons_text d t → (c ≡ d) × (s ≡ t)
cons_eq c d s t e = (cc e, cc e)

split_lem :
    (s t k m : String)
    → IsPlain s
    → IsPlain t
    → append_str s (cons_text nul k) ≡ append_str t (cons_text nul m)
    → (s ≡ t) × (k ≡ m)
split_lem String.[] String.[] k m hs ht e = (
  refl,
  (cons_eq nul nul k m (sym (append.nil (cons_text nul k)) ∙ e ∙ append.nil (cons_text nul m))).1,
)
split_lem String.[] (String.◌∷◌ d t) k m hs ht e = absurd (
    ht.0 (
      sym
        (cons_eq nul d k (append_str t (cons_text nul m))
          (sym (append.nil (cons_text nul k)) ∙ e ∙ append.cons d t (cons_text nul m))).0))
split_lem (String.◌∷◌ c s) String.[] k m hs ht e = absurd (
    hs.0
      (cons_eq c nul (append_str s (cons_text nul k)) m
        (sym (append.cons c s (cons_text nul k)) ∙ e ∙ append.nil (cons_text nul m))).0)
split_lem (String.◌∷◌ c s) (String.◌∷◌ d t) k m hs ht e =
    let (same, rest) =
      cons_eq c d (append_str s (cons_text nul k)) (append_str t (cons_text nul m))
        (sym (append.cons c s (cons_text nul k)) ∙ e ∙ append.cons d t (cons_text nul m)) in
    let (ends_same, keys) = split_lem s t k m hs.1 ht.1 rest in (cc (same, ends_same), keys)

-- Two requests with one key of the idempotency map are of the same tenant and have the same
-- idempotency key, if neither tenant's name has a NUL character.
pub idempotency_map_key_inj :
    (a b : RunRequest)
    → IsPlain a.tenant_id
    → IsPlain b.tenant_id
    → idempotency_map_key a ≡ idempotency_map_key b
    → (a.tenant_id ≡ b.tenant_id) × (a.idempotency_key ≡ b.idempotency_key)
unfolding idempotency_map_key
idempotency_map_key_inj a b ha hb e =
    split_lem a.tenant_id b.tenant_id a.idempotency_key b.idempotency_key ha hb (
      ap (append_str a.tenant_id) (sym (after_nul a.idempotency_key))
      ∙ e
      ∙ ap (append_str b.tenant_id) (after_nul b.idempotency_key))
