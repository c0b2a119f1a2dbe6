-- ===== src/Http/Creation.antt =====
-- internal/httpapi/handler.go over internal/store/memory.go: what a POST of a run does.
use reliable_agent_runtime.Prelude.{
  Bool, Option, Result, Result-cases, String, arith, err, false, inl, inr, ok, refl, true, ◌≡◌, ◌≢◌,
  ◌⊎◌,
}
use reliable_agent_runtime.Domain.{Time}
use reliable_agent_runtime.Http.Request.{
  HttpRequest, JsonCodec, Reply, run_body, to_run_response, write_error, write_json,
}
use reliable_agent_runtime.Http.Runs.{
  HttpCreation, created_reply, post_run, read_body, read_creation, run_request, with_run_id,
}
use reliable_agent_runtime.Store.{Encoders, RunRecord, StoreError}
use reliable_agent_runtime.Store.Creation.{added-get_run, create_run-cases}
use reliable_agent_runtime.Store.Implementation.{memory_repository}
use reliable_agent_runtime.Store.Memory.{MemoryRepository, get_run, queued_record}

module _ (enc : Encoders) (json : JsonCodec) where
  abbrev pub post : Option String → MemoryRepository → HttpRequest → Time → MemoryRepository × Reply
  post = post_run (memory_repository enc) json

  -- The run of a creation is stored and reported.
  pub record IsPosted (generated : Option String) (request : HttpRequest) (now : Time)
      (answer : MemoryRepository × Reply) : Type 0 where
    pub creation : HttpCreation
    pub hash : String
    pub accepted : read_creation json generated request ≡ ok creation
    pub stored :
        get_run answer.0 creation.create_body.run_id
        ≡ ok (queued_record (run_request creation) hash now)
    pub reported :
        answer.1
        ≡ write_json 201
            (run_body (to_run_response (queued_record (run_request creation) hash now)))

  pub created_reply-not_new :
      (result : Result StoreError (RunRecord × Bool))
      → ((r : RunRecord) → result ≢ ok (r, true))
      → (created_reply result).status ≢ 201
  unfolding created_reply write_error write_json
  created_reply-not_new (ok (r, true)) old = absurd (old r refl)
  created_reply-not_new (ok (r, false)) old = ground arith
  created_reply-not_new (err e) old = ground arith

  pub read_creation-refused :
      (generated : Option String) (request : HttpRequest) (reply : Reply)
      → read_creation json generated request ≡ err reply
      → reply.status ≢ 201
  unfolding read_creation read_body with_run_id write_error write_json
  read_creation-refused generated request reply refused = ground arith

  -- A POST on the memory repository either stores a queued run for the request that was read, and
  -- answers 201 with that run; or changes nothing and answers with another status.
  pub post-IsPosted :
      (generated : Option String) (repo : MemoryRepository) (request : HttpRequest) (now : Time)
      → IsPosted generated request now (post generated repo request now)
        ⊎ ((post generated repo request now).0 ≡ repo)
          × ((post generated repo request now).1.status ≢ 201)
  unfolding post_run run_request created_reply
  post-IsPosted generated repo request now =
      elim (Result-cases (read_creation json generated request)) [
        | inr (reply, refused) ↦
            rw (refused, post_run)
              (inr (refl, read_creation-refused generated request reply refused))
        | inl (creation, accepted) ↦
            rw (accepted, post_run)
              (elim (create_run-cases enc repo (run_request creation) now) [
                | inl (hash, payload, _, _, e) ↦ rw e (
                    inl (record {
                      creation = creation;
                      hash = hash;
                      accepted = accepted;
                      stored = added-get_run enc repo (run_request creation) hash payload now;
                      reported = refl;
                    }))
                | inr (kept, old) ↦ inr (kept, created_reply-not_new _ old)
              ])
      ]
