-- ===== src/Cloud/Errors.antt =====
-- The errors of internal/service/cloud_storage.go.
use walnut_billing.Prelude.{ℕ}
use walnut_billing.Repository.Error.{GormError, Error}

-- `provider` is an error of the object store.
pub data CloudError : Type 0 where
  access_denied over_quota provider_not_configured invalid project_not_found : CloudError
  session_not_found session_expired session_committed user_not_found : CloudError
  repository : Error → CloudError
  database : GormError → CloudError
  provider : ℕ → CloudError
