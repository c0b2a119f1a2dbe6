-- ===== src/Http/Runs.antt =====
-- internal/httpapi/handler.go: createRun, getRun and the health check, over any repository.
use reliable_agent_runtime.Prelude.{
  Bool, Option, Result, String, err, if◌then◌else◌, none, ok, some, ◌==◌, ◌^◌, ◌||◌,
}
use reliable_agent_runtime.Domain.{RunRequest, Time, zero_time}
use reliable_agent_runtime.Engine.Environment.{message}
use reliable_agent_runtime.Http.Request.{
  CreateRunRequest, HttpRequest, JsonCodec, Reply, ensure_json_end, require_tenant, run_body,
  status_body, to_run_response, validate_create, write_error, write_json,
}
use reliable_agent_runtime.Http.Text.{trim_space}
use reliable_agent_runtime.Store.{RunRecord, StoreError, idempotency_conflict, not_found}
use reliable_agent_runtime.Store.Interface.{Repository}

pub record HttpCreation : Type 0 where
  pub tenant_id : String
  pub idempotency_key : String
  pub create_body : CreateRunRequest

-- The identifier of the new run: the request's, or else a generated one.
unfoldable pub with_run_id : Option String → CreateRunRequest → Result Reply CreateRunRequest
unfolding write_error
with_run_id generated b =
    if b.run_id == ""
    then elim generated [
      | none ↦ err (write_error 500 "generate run id")
      | some id ↦ ok (record b { run_id = id })
    ]
    else ok b

unfoldable pub read_body : JsonCodec → HttpRequest → Result Reply CreateRunRequest
unfolding write_error
read_body json request = elim (json.decode_create (2 ^ 20) request.body) [
  | none ↦ err (write_error 400 "invalid JSON request")
  | some b ↦ elim (ensure_json_end (json.decode_rest (2 ^ 20) request.body)) [
    | err _ ↦ err (write_error 400 "request body must contain one JSON object")
    | ok _ ↦ elim (validate_create b) [ err message ↦ err (write_error 400 message) | ok _ ↦ ok b ]
  ]
]

-- createRun up to the call of the repository.
unfoldable pub read_creation : JsonCodec → Option String → HttpRequest → Result Reply HttpCreation
unfolding write_error
read_creation json generated request =
    let tenant_id = trim_space (request.header "X-Tenant-ID") in
    let idempotency_key = trim_space (request.header "Idempotency-Key") in
    if tenant_id == "" || idempotency_key == ""
    then err (write_error 400 "X-Tenant-ID and Idempotency-Key headers are required")
    else elim (read_body json request) [
      | err reply ↦ err reply
      | ok b ↦ elim (with_run_id generated b) [
        | err reply ↦ err reply
        | ok b' ↦
            ok (record {
              tenant_id = tenant_id;
              idempotency_key = idempotency_key;
              create_body = b';
            })
      ]
    ]

unfoldable pub run_request : HttpCreation → RunRequest
run_request creation =
    let b = creation.create_body in
    record {
      run_id = b.run_id;
      tenant_id = creation.tenant_id;
      idempotency_key = creation.idempotency_key;
      input = b.input;
      mode = b.mode;
      deadline = elim b.deadline [ none ↦ zero_time | some deadline ↦ deadline ];
      manifest = b.manifest;
    }

-- The answer to what CreateRun returns.
unfoldable pub created_reply : Result StoreError (RunRecord × Bool) → Reply
unfolding write_error write_json to_run_response
created_reply (err idempotency_conflict) =
    write_error 409 "idempotency key reused with different request"
created_reply (err _) = write_error 500 "create run"
created_reply (ok (r, is_new)) =
    write_json (if is_new then 201 else 200) (run_body (to_run_response r))

-- What getRun and streamEvents make of GetRun, for a tenant.
unfoldable pub own_run : String → Result StoreError RunRecord → Result Reply RunRecord
unfolding write_error
own_run tenant_id (err not_found) = err (write_error 404 "run not found")
own_run tenant_id (err _) = err (write_error 500 "get run")
own_run tenant_id (ok r) =
    if r.tenant_id == tenant_id then ok r else err (write_error 404 "run not found")

unfoldable pub run_reply : Result Reply RunRecord → Reply
unfolding write_json to_run_response
run_reply (err reply) = reply
run_reply (ok r) = write_json 200 (run_body (to_run_response r))

unfoldable pub health_reply : Reply
unfolding write_json
health_reply = write_json 200 (status_body "ok")

module _ (repository : Repository) where
  -- createRun, with the identifier that GenerateID gives and the time that the clock shows.
  unfoldable pub post_run :
      JsonCodec → Option String → repository.State → HttpRequest → Time → repository.State × Reply
  unfolding read_creation run_request created_reply
  post_run json generated st request now = elim (read_creation json generated request) [
    | err reply ↦ (st, reply)
    | ok creation ↦
        let (st', result) = repository.create_run st (run_request creation) now in
        (st', created_reply result)
  ]

  -- getRun
  unfoldable pub get_reply : repository.State → HttpRequest → Reply
  unfolding require_tenant run_reply own_run
  get_reply st request = elim (require_tenant request) [
    | err reply ↦ reply
    | ok tenant_id ↦ run_reply (own_run tenant_id (repository.get_run st request.run_id))
  ]
