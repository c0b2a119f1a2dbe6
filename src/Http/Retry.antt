-- ===== src/Http/Retry.antt =====
-- internal/httpapi/handler.go over internal/store/memory.go: a client that repeats a POST.
use reliable_agent_runtime.Prelude.{
  Bool, Bool-cases, List, Result, Result-cases, String, ap, arith, err, false, inl, inr, ok, refl,
  some, subst, sym, true, ◌==◌, ◌||◌, ◌≡◌,
}
use reliable_agent_runtime.Domain.{RawMessage, Time}
use reliable_agent_runtime.Http.Creation.{created_reply-not_new, post, read_creation-refused}
use reliable_agent_runtime.Http.Request.{
  HttpRequest, JsonCodec, Reply, run_body, to_run_response, write_json,
}
use reliable_agent_runtime.Http.Runs.{
  HttpCreation, created_reply, post_run, read_body, read_creation, run_request, with_run_id,
}
use reliable_agent_runtime.Http.Text.{trim_space}
use reliable_agent_runtime.Store.{Encoders, RunRecord, StoreError, request_hash}
use reliable_agent_runtime.Store.Creation.{create_run-cases}
use reliable_agent_runtime.Store.History.{Call, history}
use reliable_agent_runtime.Store.Idempotency.{Replay, conflict, create_run-Replay, same_request}
use reliable_agent_runtime.Store.Memory.{
  MemoryRepository, added, create_run, idempotency_map_key, queued_record,
}
use reliable_agent_runtime.Store.WellFormed.{IsWellFormed}

renamed : HttpCreation → String → HttpCreation
renamed creation id = record creation { create_body = record creation.create_body { run_id = id } }

abbrev rename : String → Result Reply HttpCreation → Result Reply HttpCreation
unfolding renamed
rename id (ok creation) = ok (renamed creation id)
rename id (err reply) = err reply

abbrev unnamed_tenant : HttpRequest → Bool
unnamed_tenant request =
    trim_space (request.header "X-Tenant-ID") == ""
    || trim_space (request.header "Idempotency-Key") == ""

module _ (json : JsonCodec) where
  -- Generated identifiers change nothing but the identifier.
  read_creation-renamed :
      (a b : String) (request : HttpRequest) (creation : HttpCreation)
      → read_creation json (some a) request ≡ ok creation
      → (id : String) × (read_creation json (some b) request ≡ ok (renamed creation id))
  unfolding read_creation with_run_id renamed
  read_creation-renamed a b request creation accepted = elim (Bool-cases (unnamed_tenant request)) [
    | inl missing ↦ absurd (ground (arith, rw missing at accepted))
    | inr there ↦ rw there (elim (Result-cases (read_body json request)) [
      | inr (reply, refused) ↦ absurd (ground (arith, rw refused at (rw there at accepted)))
      | inl (body, read) ↦
          let accepted' = rw read at (rw there at accepted) in
          rw read (elim (Bool-cases (body.run_id == "")) [
            | inl unnamed ↦
                rw (unnamed, with_run_id)
                  (b, ap (rename b) (rw (unnamed, with_run_id) at accepted'))
            | inr named ↦
                rw (named, with_run_id)
                  (body.run_id, ap (rename body.run_id) (rw (named, with_run_id) at accepted'))
          ])
    ])
  ]

-- The first POST of a run succeeded with this run, and its repetition with that one.
pub record IsRetried (st : MemoryRepository) (first : Reply) (again : MemoryRepository × Reply)
    : Type 0 where
  pub r : RunRecord
  pub r' : RunRecord
  pub first_reply : first ≡ write_json 201 (run_body (to_run_response r))
  pub kept : again.0 ≡ st
  pub second_reply : again.1 ≡ write_json 200 (run_body (to_run_response r'))
  pub same_id : r'.id ≡ r.id

Replay-same :
    (enc : Encoders) (hash id : String) (result : Result StoreError (RunRecord × Bool))
    → Replay enc hash hash id result
    → (r : RunRecord) × (result ≡ ok (r, false)) × (r.id ≡ id)
Replay-same enc hash id result (same_request r same named) = (r, refl, named)
Replay-same enc hash id result (conflict apart) = absurd (apart refl)

module _ (enc : Encoders) (json : JsonCodec) where
  repeated :
      (repo : MemoryRepository) (calls : List Call) (b id hash : String) (payload : RawMessage)
      (request : HttpRequest) (creation : HttpCreation) (now now' : Time)
      → IsWellFormed repo
      → read_creation json (some b) request ≡ ok (renamed creation id)
      → request_hash enc (run_request creation) ≡ ok hash
      → enc.marshal_created creation.create_body.mode creation.create_body.manifest ≡ ok payload
      → create_run enc repo (run_request creation) now ≡ (
        added repo (run_request creation) hash payload now,
        ok (queued_record (run_request creation) hash now, true),
      )
      → let st = history enc (added repo (run_request creation) hash payload now) calls in
        IsRetried st
          (created_reply (ok (queued_record (run_request creation) hash now, true)))
          (post enc json (some b) st request now')
  unfolding post_run run_request renamed created_reply queued_record request_hash
      idempotency_map_key
  repeated repo calls b id hash payload request creation now now' w accepted hashed encoded e =
      let (kept, answer) =
        create_run-Replay enc repo (run_request creation) (run_request (renamed creation id)) now
          now' calls hash payload w e refl hashed encoded in
      let (r', same, same_id) = Replay-same enc hash _ _ answer in
      rw (accepted, post_run)
        (record {
          r = queued_record (run_request creation) hash now;
          r' = r';
          first_reply = refl;
          kept = kept;
          second_reply = rw same refl;
          same_id = same_id;
        })

  first_post :
      (repo : MemoryRepository) (a hash : String) (payload : RawMessage) (request : HttpRequest)
      (creation : HttpCreation) (now : Time)
      → read_creation json (some a) request ≡ ok creation
      → create_run enc repo (run_request creation) now ≡ (
        added repo (run_request creation) hash payload now,
        ok (queued_record (run_request creation) hash now, true),
      )
      → post enc json (some a) repo request now ≡ (
        added repo (run_request creation) hash payload now,
        created_reply (ok (queued_record (run_request creation) hash now, true)),
      )
  unfolding post_run
  first_post repo a hash payload request creation now accepted e =
      rw (accepted, post_run) (rw e refl)

  -- Repeating a POST that was answered with 201, later and after any calls, with another generated
  -- identifier, changes nothing and answers 200 with the run that the first POST created.
  pub post-IsRetried :
      (repo : MemoryRepository) (calls : List Call) (a b : String) (request : HttpRequest)
      (now now' : Time)
      → IsWellFormed repo
      → (post enc json (some a) repo request now).1.status ≡ 201
      → let st = history enc (post enc json (some a) repo request now).0 calls in
        IsRetried st
          (post enc json (some a) repo request now).1
          (post enc json (some b) st request now')
  unfolding post_run
  post-IsRetried repo calls a b request now now' w done =
      elim (Result-cases (read_creation json (some a) request)) [
        | inr (reply, refused) ↦ absurd (
            read_creation-refused enc json (some a) request reply refused
              (rw (refused, post_run) at done))
        | inl (creation, accepted) ↦ elim (create_run-cases enc repo (run_request creation) now) [
          | inr (kept, old) ↦
              absurd (created_reply-not_new enc json _ old (rw (accepted, post_run) at done))
          | inl (hash, payload, hashed, encoded, e) ↦
              let (id, accepted') = read_creation-renamed json a b request creation accepted in
              subst
                (λ p.
                  IsRetried (history enc p.0 calls) p.1
                    (post enc json (some b) (history enc p.0 calls) request now'))
                (sym (first_post repo a hash payload request creation now accepted e))
                (repeated repo calls b id hash payload request creation now now' w accepted' hashed
                  encoded e)
        ]
      ]
