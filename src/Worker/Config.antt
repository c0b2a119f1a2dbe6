-- ===== src/Worker/Config.antt =====
-- internal/worker/worker.go: the configuration, and the errors of a worker.
use reliable_agent_runtime.Prelude.{Result, String, err, if◌then◌else◌, leb_ℤ, ok, pos, ◌==◌, ◌||◌}
use reliable_agent_runtime.Domain.{Duration}
use reliable_agent_runtime.Engine.Environment.{EngineError}
use reliable_agent_runtime.Store.{StoreError}

pub record WorkerConfig : Type 0 where
  pub worker_id : String
  pub lease_ttl : Duration
  pub renew_every : Duration
  pub poll_interval : Duration

unfoldable pub default_worker_config : String → WorkerConfig
default_worker_config worker_id = record {
  worker_id = worker_id;
  lease_ttl = pos 30000000000;
  renew_every = pos 10000000000;
  poll_interval = pos 500000000;
}

-- `store_error` is an error of the repository, `attempt_context` one of the context; the others are
-- built from a constant of the package and a text.
pub data WorkerError : Type 0 where
  invalid_worker_config missing_terminal invalid_terminal : WorkerError
  invalid_terminal_event : StoreError → WorkerError
  store_error : StoreError → WorkerError
  renew_failed : StoreError → WorkerError
  attempt_context : EngineError → WorkerError
  undecodable_checkpoint : WorkerError
  unencodable_checkpoint : WorkerError

-- The check of `New`, for a repository, an engine and a clock that are not nil.
unfoldable pub new_worker : WorkerConfig → Result WorkerError WorkerConfig
new_worker config =
    if config.worker_id == ""
      || leb_ℤ config.lease_ttl (pos 0)
      || leb_ℤ config.renew_every (pos 0)
      || leb_ℤ config.lease_ttl config.renew_every
      || leb_ℤ config.poll_interval (pos 0)
    then err invalid_worker_config
    else ok config
