-- ===== src/Store/Memory/Leases.antt =====
-- internal/store/memory.go: LeaseNext and RenewLease.

use reliable_agent_runtime.Prelude.{
  Bool, List, Result, String, [], eqb, err, if◌then◌else◌, insert, leb_ℤ, lookup, ltb, not, ok,
  or_zero, pos, select, sort_slice, str_lt, u64, values, ℕ, ◌&&◌, ◌+◌, ◌==◌, ◌||◌, ◌∷◌,
}
use reliable_agent_runtime.Domain.{
  Duration, Time, add_time, after, is_running, is_waiting, is_zero, running,
}
use reliable_agent_runtime.Store.{
  Lease, RunRecord, StoreError, invalid_transition, no_run_available, zero_run,
}
use reliable_agent_runtime.Store.Memory.Repository.{MemoryRepository, valid_lease}

-- The condition under which `LeaseNext` collects a record.
unfoldable pub is_candidate : Time → RunRecord → Bool
is_candidate now r =
    (is_waiting r.status || (is_running r.status && not (after r.lease_until now)))
    && (is_zero r.deadline || after r.deadline now)

unfoldable pub older : RunRecord → RunRecord → Bool
older a b =
    if eqb a.created_at b.created_at then str_lt a.id b.id else ltb a.created_at b.created_at

unfoldable pub leased : RunRecord → String → Time → Duration → RunRecord
leased r worker now ttl = record r {
  status = running;
  lease_owner = worker;
  lease_until = add_time now ttl;
  fence_token = u64 (r.fence_token + 1);
  attempt = u64 (r.attempt + 1);
  updated_at = now;
}

abbrev pub lease_of : RunRecord → String → Lease
lease_of r worker = record {
  run = r;
  worker_id = worker;
  fence_token = r.fence_token;
  attempt = r.attempt;
  lease_until = r.lease_until;
}

unfoldable pub grant :
    MemoryRepository
    → List RunRecord
    → String
    → Time
    → Duration
    → MemoryRepository × Result StoreError Lease
grant repo [] worker now ttl = (repo, err no_run_available)
grant repo (first ∷ _) worker now ttl =
    let r = leased (or_zero zero_run (lookup first.id repo.runs)) worker now ttl in
    (record repo { runs = insert r.id r repo.runs }, ok (lease_of r worker))

unfoldable pub candidates : MemoryRepository → Time → List RunRecord
candidates repo now = select (is_candidate now) (values repo.runs)

unfoldable pub lease_next :
    MemoryRepository → String → Time → Duration → MemoryRepository × Result StoreError Lease
lease_next repo worker now ttl =
    if worker == "" || leb_ℤ ttl (pos 0)
    then (repo, err invalid_transition)
    else grant repo (sort_slice older (candidates repo now)) worker now ttl

unfoldable pub extended : RunRecord → Time → Duration → RunRecord
extended r now ttl = record r { lease_until = add_time now ttl; updated_at = now }

unfoldable pub renew_lease :
    MemoryRepository
    → String
    → String
    → ℕ
    → Time
    → Duration
    → MemoryRepository × Result StoreError Time
renew_lease repo run_id worker fence now ttl = elim (valid_lease repo run_id worker fence now) [
  | err e ↦ (repo, err e)
  | ok r ↦ if leb_ℤ ttl (pos 0) then (repo, err invalid_transition) else (
    record repo { runs = insert run_id (extended r now ttl) repo.runs },
    ok (add_time now ttl),
  )
]
