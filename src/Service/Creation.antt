-- ===== src/Service/Creation.antt =====
-- `JobService` of src/server/application/service.py: the lists that it shows, and the checks before a
-- job is created.
use safactory_server.Base.{String, Bool, Option, none, some, List, select, not, if◌then◌else◌}
use safactory_server.Json.{text, end, field}
use safactory_server.Domain.Errors.{
  ErrorCode, model_not_found, model_not_available, range_not_found, range_not_available,
  new_domain_error,
}
use safactory_server.Domain.Entities.{Model, Range, CreatedJob}
use safactory_server.Store.Failure.{domain_error}
use safactory_server.Exec.{M, pure, raise, ◌>>=◌, ◌>>◌}
use safactory_server.Runtime.Repository.{Repository, ask}
use safactory_server.Runtime.Jobs
use safactory_server.Catalog
use safactory_server.Catalog.{RealCatalog}

-- `list_models`.
unfoldable pub list_models : RealCatalog → List Model
unfolding Catalog.list_models select
list_models catalog = select (λ m. m.available) (Catalog.list_models catalog)

-- `list_ranges`.
unfoldable pub list_ranges : RealCatalog → M (List Range)
unfolding ask select Catalog.list_ranges
list_ranges catalog = do
  ranges ← ask (Catalog.list_ranges catalog)
  pure (select (λ r. r.available) ranges)

unfoldable pub refuse : {A : Type 0} → ErrorCode → String → String → Option Bool → M A
unfolding new_domain_error
refuse code name id retryable =
    raise (domain_error (new_domain_error code (field name (text id) end) retryable))

unfoldable pub check_model : String → Option Model → M (Unit {0})
unfolding refuse
check_model model_id none = refuse model_not_found "model_id" model_id none
check_model model_id (some model) =
    if not model.available then refuse model_not_available "model_id" model_id none else pure tt

unfoldable pub check_range : String → Option Range → M (Unit {0})
unfolding refuse
check_range range_id none = refuse range_not_found "range_id" range_id none
check_range range_id (some range_config) =
    if not range_config.available
    then refuse range_not_available "range_id" range_id (some range_config.availability_retryable)
    else pure tt

-- `create_job`.
unfoldable pub create_job : Repository → String → String → M CreatedJob
unfolding check_model check_range ask Catalog.get_model Catalog.get_range
create_job r model_id range_id = do
  check_model model_id (Catalog.get_model r.catalog model_id)
  range_config ← ask (λ n. Catalog.get_range r.catalog n range_id)
  check_range range_id range_config
  Jobs.create_job r model_id range_id
