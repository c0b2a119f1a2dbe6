-- ===== src/Http/Isolation.antt =====
-- internal/httpapi/handler.go: a tenant cannot tell the runs of others from runs that do not exist.
use reliable_agent_runtime.Prelude.{
  Bool-cases, Result, String, ap, arith, err, if◌then◌else◌, inl, inr, ok, refl, sym, ◌==◌, ◌∙◌,
  ◌≡◌,
}
use reliable_agent_runtime.Http.Events.{open_stream}
use reliable_agent_runtime.Http.Request.{HttpRequest, require_tenant}
use reliable_agent_runtime.Http.Runs.{get_reply, own_run}
use reliable_agent_runtime.Http.Text.{trim_space}
use reliable_agent_runtime.Store.{RunRecord, StoreError, not_found}
use reliable_agent_runtime.Store.Interface.{Repository}

-- What GetRun says, as far as it concerns a tenant: a run of another is not there.
abbrev pub view : String → Result StoreError RunRecord → Result StoreError RunRecord
view tenant_id (err e) = err e
view tenant_id (ok r) = if r.tenant_id == tenant_id then ok r else err not_found

own_run-view :
    (tenant_id : String) (result : Result StoreError RunRecord)
    → own_run tenant_id (view tenant_id result) ≡ own_run tenant_id result
unfolding own_run
own_run-view tenant_id (err e) = refl
own_run-view tenant_id (ok r) = elim (Bool-cases (r.tenant_id == tenant_id)) [
  | inl mine ↦ rw mine (rw (mine, own_run) refl)
  | inr foreign ↦ rw foreign refl
]

pub own_run_alike :
    (tenant_id : String) (a b : Result StoreError RunRecord)
    → view tenant_id a ≡ view tenant_id b
    → own_run tenant_id a ≡ own_run tenant_id b
own_run_alike tenant_id a b alike =
    sym (own_run-view tenant_id a) ∙ ap (own_run tenant_id) alike ∙ own_run-view tenant_id b

-- The tenant that a request names, or the empty text.
abbrev pub tenant_of : HttpRequest → String
tenant_of request = trim_space (request.header "X-Tenant-ID")

module _ (repository : Repository) where
  get_reply_isolated :
      (st st' : repository.State) (request : HttpRequest)
      → view (tenant_of request) (repository.get_run st request.run_id)
        ≡ view (tenant_of request) (repository.get_run st' request.run_id)
      → get_reply repository st request ≡ get_reply repository st' request
  unfolding get_reply require_tenant
  get_reply_isolated st st' request alike = elim (Bool-cases (tenant_of request == "")) [
    | inl missing ↦ ground (arith, missing)
    | inr named ↦ ground (arith, named, own_run_alike (tenant_of request) _ _ alike)
  ]

  open_stream_isolated :
      (st st' : repository.State) (request : HttpRequest)
      → view (tenant_of request) (repository.get_run st request.run_id)
        ≡ view (tenant_of request) (repository.get_run st' request.run_id)
      → open_stream repository st request ≡ open_stream repository st' request
  unfolding open_stream require_tenant
  open_stream_isolated st st' request alike = elim (Bool-cases (tenant_of request == "")) [
    | inl missing ↦ ground (arith, missing)
    | inr named ↦ ground (arith, named, own_run_alike (tenant_of request) _ _ alike)
  ]

  -- Two states of any repository whose GetRun agrees on the requested run, as the tenant of the
  -- request sees it, get the same reply to a GET of the run, and open its event stream in the same
  -- way or refuse it with the same reply: whether a foreign run exists, and what is in it, has no
  -- influence.
  pub replies_isolated :
      (st st' : repository.State) (request : HttpRequest)
      → view (tenant_of request) (repository.get_run st request.run_id)
        ≡ view (tenant_of request) (repository.get_run st' request.run_id)
      → (get_reply repository st request ≡ get_reply repository st' request)
        × (open_stream repository st request ≡ open_stream repository st' request)
  replies_isolated st st' request alike =
      (get_reply_isolated st st' request alike, open_stream_isolated st st' request alike)
