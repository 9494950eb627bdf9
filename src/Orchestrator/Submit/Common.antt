-- ===== src/Orchestrator/Submit/Common.antt =====
-- What the two specifications of orchestrator.py share.
use safactory_server.Base.{String, Option, none, some, List, [], ◌∷◌, if◌then◌else◌}
use safactory_server.Text.{is_empty}
use safactory_server.Store.Failure.{trusted_config_error, Outcome, ok, raised}
use safactory_server.Store.Row.{ControlJob}
use safactory_server.RJob.{RJobSpec}
use safactory_server.Settings.{Settings, GatewayModelConfig}
use safactory_server.Exec.{Context, M, call, create_rjob}

-- `GatewayModelConfig.model_validate_json`, with its `except ValueError`.
unfoldable pub stored_model : Option GatewayModelConfig → Outcome GatewayModelConfig
stored_model none = raised trusted_config_error
stored_model (some model) = ok model

-- `{**environment, …}` with the entries of every RJob.
abbrev pub common_environment : Settings → ControlJob → String → List (String × String)
common_environment settings job workdir =
    ("PYTHONPATH", workdir)
    ∷ ("PYTHONDONTWRITEBYTECODE", "1")
    ∷ ("PYTHONUNBUFFERED", "1")
    ∷ ("NO_PROXY", settings.runtime_no_proxy)
    ∷ ("no_proxy", settings.runtime_no_proxy)
    ∷ ("SAFACTORY_JOB_ID", job.job_id)
    ∷ ("SAFACTORY_MODEL_ID", job.model_id)
    ∷ []

abbrev pub labels_of : ControlJob → String → List (String × String)
labels_of job component =
    ("safactory.brainpp.cn/job-id", job.job_id) ∷ ("safactory.brainpp.cn/component", component) ∷ []

-- `self._rjobs.create`.
unfoldable pub create : Context → RJobSpec → M String
create ctx spec = call (create_rjob spec) (λ n. ctx.env.create_reply n spec)

-- `value or default`, for an optional text.
unfoldable pub text_or : Option String → String → String
text_or none d = d
text_or (some t) d = if is_empty t then d else t
