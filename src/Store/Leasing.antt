-- ===== src/Store/Leasing.antt =====
-- Which run `LeaseNext` gives out, and what the lease says.
use reliable_agent_runtime.Prelude.{
  All, All-lookup, All-of-select, All-sort_slice, Bool-cases, Least, LeastFirst,
  LeastFirst-sort_slice, List, String, [], ap, arith, err, false, inl, inr, insert, leb_ℤ, lookup,
  ok, pos, some, sort_slice, str_ge_trans, str_lt, str_lt_asymm, str_lt_irrefl, sym, true, u64,
  values, ◌+◌, ◌<◌, ◌==◌, ◌||◌, ◌∷◌, ◌≡◌, ◌≤◌, ◌⊎◌,
}
use reliable_agent_runtime.Domain.{
  Duration, Time, add_time, is_running, queued, retry_wait, running,
}
use reliable_agent_runtime.Store.{Lease, RunRecord, StoreError, no_run_available}
use reliable_agent_runtime.Store.Change.{candidates-found}
use reliable_agent_runtime.Store.Memory.{
  MemoryRepository, candidates, grant, is_candidate, lease_next, lease_of, leased, older,
}
use reliable_agent_runtime.Store.Preservation.{IsWellFormed-IsKeyed}
use reliable_agent_runtime.Store.WellFormed.{IsWellFormed}

older_irrefl : (a : RunRecord) → older a a ≡ false
unfolding older
older_irrefl a = ground (arith, str_lt_irrefl a.id)

older_asymm : (a b : RunRecord) → older a b ≡ true → older b a ≡ false
unfolding older
older_asymm a b h = ground (arith, h, str_lt_asymm a.id b.id)

older_trans : (a b c : RunRecord) → older a b ≡ false → older b c ≡ false → older a c ≡ false
unfolding older
older_trans a b c h k = ground (arith, h, k, str_ge_trans a.id b.id c.id)

-- A run that may be leased: it waits, or its lease has run out; and its deadline has not passed.
abbrev pub IsAvailable : Time → RunRecord → Type 0
IsAvailable now r =
    ((r.status ≡ queued) ⊎ (r.status ≡ retry_wait) ⊎ ((r.status ≡ running) × (r.lease_until ≤ now)))
    × ((r.deadline ≡ 0) ⊎ (now < r.deadline))

-- The order of creation, with the identifier for runs that were created at one time.
abbrev pub NotAfter : RunRecord → RunRecord → Type 0
NotAfter r x =
    (r.created_at < x.created_at) ⊎ ((r.created_at ≡ x.created_at) × (str_lt x.id r.id ≡ false))

is_candidate-IsAvailable :
    (now : Time) (r : RunRecord) → is_candidate now r ≡ true → IsAvailable now r
unfolding is_candidate
is_candidate-IsAvailable now r h = ground (arith, h)

IsAvailable-is_candidate :
    (now : Time) (r : RunRecord) → IsAvailable now r → is_candidate now r ≡ true
unfolding is_candidate
IsAvailable-is_candidate now r h = ground (arith, h)

older-NotAfter : (r x : RunRecord) → older x r ≡ false → NotAfter r x
unfolding older
older-NotAfter r x h = ground (arith, h)

-- The run that is granted: a candidate of the map, before which no candidate comes.
pub record IsOldest (repo : MemoryRepository) (now : Time) (r : RunRecord) : Type 0 where
  pub found : lookup r.id repo.runs ≡ some r
  pub ready : IsAvailable now r
  pub first :
      (id : String) (x : RunRecord)
      → lookup id repo.runs ≡ some x
      → IsAvailable now x
      → NotAfter r x

pub record IsGrant (repo repo' : MemoryRepository) (worker : String) (now : Time) (ttl : Duration)
    (l : Lease) : Type 0 where
  pub r : RunRecord
  pub oldest : IsOldest repo now r
  pub lease : l ≡ lease_of (leased r worker now ttl) worker
  pub owned : l.worker_id ≡ worker
  pub lasts : l.lease_until ≡ add_time now ttl
  pub raised : l.fence_token ≡ u64 (r.fence_token + 1)
  pub counted : l.attempt ≡ u64 (r.attempt + 1)
  pub runs_now : is_running l.run.status ≡ true
  pub after_grant : repo' ≡ record repo { runs = insert r.id (leased r worker now ttl) repo.runs }

Least-first :
    (repo : MemoryRepository) (now : Time) (r : RunRecord)
    → Least older older_asymm older_irrefl older_trans r (candidates repo now)
    → (id : String) (x : RunRecord) → lookup id repo.runs ≡ some x
    → is_candidate now x ≡ true
    → older x r ≡ false
unfolding candidates
Least-first repo now r least id x found ready =
    All-lookup (λ y. is_candidate now y ≡ true → older y r ≡ false) id x repo.runs
      (All-of-select (λ y. older y r ≡ false) (is_candidate now) (values repo.runs) least) found
      ready

grant-IsGrant :
    (repo repo' : MemoryRepository) (rs : List RunRecord) (worker : String) (now : Time)
    (ttl : Duration) (l : Lease)
    → All (λ r. (lookup r.id repo.runs ≡ some r) × (is_candidate now r ≡ true)) rs
    → LeastFirst older older_asymm older_irrefl older_trans rs (candidates repo now)
    → grant repo rs worker now ttl ≡ (repo', ok l)
    → IsGrant repo repo' worker now ttl l
unfolding grant leased
grant-IsGrant repo repo' [] worker now ttl l h least e = absurd (cc e)
grant-IsGrant repo repo' (r ∷ rs) worker now ttl l h least e =
    let e' = rw h.0.0 at e in
    let same_lease : l ≡ lease_of (leased r worker now ttl) worker = cc e' in
    record {
      r = r;
      oldest = record {
        found = h.0.0;
        ready = is_candidate-IsAvailable now r h.0.1;
        first = λ id x found ready.
            older-NotAfter r x
              (Least-first repo now r least id x found (IsAvailable-is_candidate now x ready));
      };
      lease = same_lease;
      owned = ap (λ x. x.worker_id) (same_lease);
      lasts = ap (λ x. x.lease_until) (same_lease);
      raised = ap (λ x. x.fence_token) (same_lease);
      counted = ap (λ x. x.attempt) (same_lease);
      runs_now = ap (λ x. is_running x.run.status) (same_lease);
      after_grant = sym (ap (λ p. p.0) e');
    }

none_ready :
    (repo : MemoryRepository) (rs : List RunRecord) (worker : String) (now : Time) (ttl : Duration)
    (e : StoreError)
    → LeastFirst older older_asymm older_irrefl older_trans rs (candidates repo now)
    → (grant repo rs worker now ttl).1 ≡ err e
    → All (λ _. ⊥) (candidates repo now)
unfolding grant
none_ready repo [] worker now ttl e least h = least
none_ready repo (r ∷ rs) worker now ttl e least h = absurd (cc h)

module _ (repo : MemoryRepository) (w : IsWellFormed repo) (worker : String) (now : Time)
    (ttl : Duration) where
  sorted : List RunRecord
  sorted = sort_slice older (candidates repo now)

  sorted_found : All (λ r. (lookup r.id repo.runs ≡ some r) × (is_candidate now r ≡ true)) sorted
  unfolding sorted
  sorted_found =
      All-sort_slice older _ (candidates repo now)
        (candidates-found repo now w.distinct (IsWellFormed-IsKeyed repo w))

  sorted_least : LeastFirst older older_asymm older_irrefl older_trans sorted (candidates repo now)
  unfolding sorted
  sorted_least =
      LeastFirst-sort_slice older older_asymm older_irrefl older_trans (candidates repo now)

  -- When `LeaseNext` on a well-formed repository returns a lease, the run was waiting or its lease had
  -- run out, its deadline had not passed, no such run was created before it (or at the same time with
  -- a smaller identifier); the lease is that of this run with the caller as owner until now + ttl, one
  -- higher fence token and attempt; and nothing of the repository but this record has changed.
  pub lease_next-IsGrant :
      {repo' : MemoryRepository} {l : Lease}
      → lease_next repo worker now ttl ≡ (repo', ok l)
      → IsGrant repo repo' worker now ttl l
  unfolding lease_next sorted
  lease_next-IsGrant {repo'} {l} e = elim (Bool-cases (worker == "" || leb_ℤ ttl (pos 0))) [
    | inl refused ↦ absurd (cc (rw refused at e))
    | inr sound ↦
        grant-IsGrant repo repo' sorted worker now ttl l sorted_found sorted_least (rw sound at e)
  ]

  -- When `LeaseNext` on a well-formed repository answers that no run is available, no run of the
  -- repository could be leased.
  pub lease_next_none :
      (lease_next repo worker now ttl).1 ≡ err no_run_available
      → (id : String) (x : RunRecord) → lookup id repo.runs ≡ some x
      → ¬ IsAvailable now x
  unfolding lease_next sorted candidates
  lease_next_none e id x found available = elim (Bool-cases (worker == "" || leb_ℤ ttl (pos 0))) [
    | inl refused ↦ absurd (cc (rw refused at e))
    | inr sound ↦
        All-lookup (λ y. is_candidate now y ≡ true → ⊥) id x repo.runs
          (All-of-select (λ _. ⊥) (is_candidate now) (values repo.runs)
            (none_ready repo sorted worker now ttl no_run_available sorted_least (rw sound at e)))
          found (IsAvailable-is_candidate now x available)
  ]
