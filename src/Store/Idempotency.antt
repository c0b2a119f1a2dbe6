-- ===== src/Store/Idempotency.antt =====
-- CreateRun with a key that was used before.
use reliable_agent_runtime.Prelude.{
  Bool, Bool-cases, List, Option-cases, Result, Result-cases, String, [], ap, arith, eq_iff,
  eq_refl, err, false, inl, inr, lookup, lookup-insert, ok, refl, some, subst, sym, true, ◌==◌, ◌∙◌,
  ◌∷◌, ◌≡◌, ◌≢◌,
}
use reliable_agent_runtime.Domain.{RawMessage, RunRequest, Time}
use reliable_agent_runtime.Store.{
  Encoders, RunRecord, StoreError, idempotency_conflict, request_hash,
}
use reliable_agent_runtime.Store.Change.{
  Change, created, ended, granted, renewed, saved, step-Change, unchanged, wrote,
}
use reliable_agent_runtime.Store.History.{Call, creates, history, step}
use reliable_agent_runtime.Store.Memory.{
  MemoryRepository, added, appended, create_existing, create_locked, create_new, create_run,
  extended, finished, idempotency_map_key, leased, queued_record, written,
}
use reliable_agent_runtime.Store.Preservation.{IsWellFormed-IsKeyed, step-IsWellFormed}
use reliable_agent_runtime.Store.RunStep.{
  Change-RunStep, RunStep, ends, gains_event, is_leased, is_renewed, rests,
}
use reliable_agent_runtime.Store.WellFormed.{IsWellFormed}

-- A key that belongs to a run with a given request hash.
pub record IsRegistered (repo : MemoryRepository) (key id hash : String) : Type 0 where
  pub indexed : lookup key repo.by_idempotency ≡ some id
  pub r : RunRecord
  pub found : lookup id repo.runs ≡ some r
  pub hashed : r.request_hash ≡ hash
  pub named : r.id ≡ id

RunStep-identity :
    {repo repo' : MemoryRepository} {id : String} {r : RunRecord}
    → RunStep repo repo' id r
    → (r' : RunRecord) × (lookup id repo'.runs ≡ some r')
      × (r'.request_hash ≡ r.request_hash)
      × (r'.id ≡ r.id)
unfolding leased extended appended finished
RunStep-identity {r} (rests a b) = (r, a, refl, refl)
RunStep-identity (is_leased worker now ttl ready a b) = (_, a, refl, refl)
RunStep-identity (is_renewed worker fence now ttl holds a b) = (_, a, refl, refl)
RunStep-identity (gains_event worker fence type payload now holds a b) = (_, a, refl, refl)
RunStep-identity (ends worker fence result type payload now holds e a b) = (_, a, refl, refl)

Change-index :
    {repo repo' : MemoryRepository} (key id : String)
    → Change repo repo'
    → lookup key repo.by_idempotency ≡ some id
    → lookup key repo'.by_idempotency ≡ some id
unfolding added written
Change-index key id (unchanged e) h = rw e h
Change-index {repo} key id (created request hash payload now fresh free e) h = rw e (
    ground (
      arith,
      h,
      fresh,
      lookup-insert (idempotency_map_key request) key request.run_id repo.by_idempotency,
      eq_iff (idempotency_map_key request) key,
    ))
Change-index key id (granted r worker now ttl found ready named e) h = rw e h
Change-index key id (renewed j worker fence r now ttl found holds e) h = rw e h
Change-index key id (wrote j worker fence r type payload now found holds e) h = rw e h
Change-index key id (saved worker r c found holds committed e) h = rw e h
Change-index key id (ended j worker fence r result type payload now found holds t e) h = rw e h

Change-IsRegistered :
    {repo repo' : MemoryRepository} {key id hash : String}
    → Change repo repo'
    → IsRegistered repo key id hash
    → IsRegistered repo' key id hash
Change-IsRegistered {key} {id} c g =
    let (r', found', same_hash, same_id) = RunStep-identity (Change-RunStep id g.r c g.found) in
    record {
      indexed = Change-index key id c g.indexed;
      r = r';
      found = found';
      hashed = same_hash ∙ g.hashed;
      named = same_id ∙ g.named;
    }

-- The only way in which `CreateRun` answers that it has created a run.
record IsCreation (enc : Encoders) (repo repo' : MemoryRepository) (request : RunRequest)
    (now : Time) (r : RunRecord) : Type 0 where
  hash : String
  payload : RawMessage
  hashed : request_hash enc request ≡ ok hash
  stored : repo' ≡ added repo request hash payload now
  queues : r ≡ queued_record request hash now

create_locked-created :
    (repo repo' : MemoryRepository) (request : RunRequest) (hash : String) (payload : RawMessage)
    (now : Time) (r : RunRecord)
    → create_locked repo request hash payload now ≡ (repo', ok (r, true))
    → (repo' ≡ added repo request hash payload now) × (r ≡ queued_record request hash now)
unfolding create_locked create_new create_existing
create_locked-created repo repo' request hash payload now r e =
    elim (Option-cases (lookup (idempotency_map_key request) repo.by_idempotency)) [
      | inr (id, known) ↦ absurd (ground (arith, rw (known, create_locked) at e))
      | inl fresh ↦ elim (Option-cases (lookup request.run_id repo.runs)) [
        | inr (x, taken) ↦ absurd (cc (rw (taken, create_new) at (rw (fresh, create_locked) at e)))
        | inl free ↦
            let e' = rw (free, create_new) at (rw (fresh, create_locked) at e) in
            (sym (ap (λ p. p.0) e'), cc e')
      ]
    ]

create_run-IsCreation :
    (enc : Encoders) (repo : MemoryRepository) (request : RunRequest) (now : Time)
    {repo' : MemoryRepository} {r : RunRecord}
    → create_run enc repo request now ≡ (repo', ok (r, true))
    → IsCreation enc repo repo' request now r
unfolding create_run
create_run-IsCreation enc repo request now {repo'} {r} e =
    elim (Result-cases (request_hash enc request)) [
      | inr (x, broken) ↦ absurd (cc (rw (broken, create_run) at e))
      | inl (hash, hashed) ↦
          elim (Result-cases (enc.marshal_created request.mode request.manifest)) [
            | inr (x, broken) ↦ absurd (cc (rw broken at (rw (hashed, create_run) at e)))
            | inl (payload, encoded) ↦
                let (stored, queues) =
                  create_locked-created repo repo' request hash payload now r
                    (rw encoded at (rw (hashed, create_run) at e)) in
                record {
                  hash = hash;
                  payload = payload;
                  hashed = hashed;
                  stored = stored;
                  queues = queues;
                }
          ]
    ]

added-IsRegistered :
    (repo : MemoryRepository) (request : RunRequest) (hash : String) (payload : RawMessage)
    (now : Time)
    → IsRegistered
        (added repo request hash payload now)
        (idempotency_map_key request)
        request.run_id
        hash
unfolding added queued_record
added-IsRegistered repo request hash payload now = record {
  indexed =
      rw
        (lookup-insert (idempotency_map_key request) (idempotency_map_key request) request.run_id
          repo.by_idempotency)
        (rw (eq_refl (idempotency_map_key request)));
  r = queued_record request hash now;
  found =
      rw (lookup-insert request.run_id request.run_id (queued_record request hash now) repo.runs)
        (rw (eq_refl request.run_id));
  hashed = refl;
  named = refl;
}

module _ (enc : Encoders) where
  history-IsRegistered :
      (repo : MemoryRepository) (calls : List Call) {key id hash : String}
      → IsWellFormed repo
      → IsRegistered repo key id hash
      → IsRegistered (history enc repo calls) key id hash
  unfolding history
  history-IsRegistered repo [] w g = g
  history-IsRegistered repo (call ∷ calls) w g =
      history-IsRegistered (step enc repo call) calls (step-IsWellFormed enc repo call w)
        (Change-IsRegistered (step-Change enc repo call w.distinct (IsWellFormed-IsKeyed repo w)) g)

  -- The two answers to a key that is taken.
  pub data Replay (request_hash' hash id : String)
      : Result StoreError (RunRecord × Bool) → Type 0 where
    same_request :
        (r : RunRecord)
        → request_hash' ≡ hash
        → r.id ≡ id
        → Replay request_hash' hash id (ok (r, false))
    conflict : request_hash' ≢ hash → Replay request_hash' hash id (err idempotency_conflict)

  create_run_registered :
      (repo : MemoryRepository) (request : RunRequest) (now : Time) {id hash hash' : String}
      (payload : RawMessage)
      → IsRegistered repo (idempotency_map_key request) id hash
      → request_hash enc request ≡ ok hash'
      → enc.marshal_created request.mode request.manifest ≡ ok payload
      → ((create_run enc repo request now).0 ≡ repo)
        × Replay hash' hash id (create_run enc repo request now).1
  unfolding create_run create_locked create_existing
  create_run_registered repo request now {id} {hash} {hash'} payload g hashed encoded =
      rw (hashed, create_run)
        (rw encoded (
          rw (g.indexed, create_locked)
            (
              refl,
              rw (g.found, create_existing)
                  (elim (Bool-cases (g.r.request_hash == hash')) [
                    | inl same ↦ rw same (
                        same_request g.r
                          (ground (arith, g.hashed, eq_iff g.r.request_hash hash', same)) g.named)
                    | inr other_request ↦ rw other_request (
                        conflict
                          (ground (arith, g.hashed, eq_iff g.r.request_hash hash', other_request)))
                  ]),
            )))

  -- After a creation on a well-formed repository, and any calls since, a request with the same key
  -- of the idempotency map, whose hash and first payload can be encoded, changes nothing: it gets the
  -- run that was created, with `created` false, if its hash is that of the first request, and the
  -- conflict error otherwise. The identifier it proposes has no part in this.
  pub create_run-Replay :
      (repo : MemoryRepository) (request request' : RunRequest) (now now' : Time)
      {repo' : MemoryRepository} {r : RunRecord} (calls : List Call) (hash' : String)
      (payload : RawMessage)
      → IsWellFormed repo
      → create_run enc repo request now ≡ (repo', ok (r, true))
      → idempotency_map_key request' ≡ idempotency_map_key request
      → request_hash enc request' ≡ ok hash'
      → enc.marshal_created request'.mode request'.manifest ≡ ok payload
      → ((create_run enc (history enc repo' calls) request' now').0 ≡ history enc repo' calls)
        × Replay hash' r.request_hash r.id
            (create_run enc (history enc repo' calls) request' now').1
  unfolding step queued_record
  create_run-Replay repo request request' now now' {repo'} {r} calls hash' payload w e key hashed
        encoded =
      let c = create_run-IsCreation enc repo request now e in
      let g : IsRegistered repo' (idempotency_map_key request) r.id r.request_hash =
        rw (c.stored, c.queues) (added-IsRegistered repo request c.hash c.payload now) in
      create_run_registered (history enc repo' calls) request' now' payload
        (history-IsRegistered repo' calls
          (subst IsWellFormed (ap (λ p. p.0) e)
            (step-IsWellFormed enc repo (creates request now) w))
          (subst (λ k. IsRegistered repo' k r.id r.request_hash) (sym key) g))
        hashed encoded
