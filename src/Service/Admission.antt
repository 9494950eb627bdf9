-- ===== src/Service/Admission.antt =====
-- When `create_job` of `JobService` in service.py answers with a job.
use Prim.Native.String.{String}
use package.text.Mathlib.TextEquality.{eq_iff}
use safactory_server.Base.{
  ℕ, true, Option, none, some, List, [], ◌∷◌, same_text, ◌≡◌, refl, sym, ap, ◌∙◌, Bool-cases,
  Option-cases, inl, inr, Any,
}
use safactory_server.Domain.{JobStatus}
use safactory_server.Domain.Entities.{Range, CreatedJob}
use safactory_server.Store.Failure.{trusted_config_error, Outcome, ok, raised}
use safactory_server.Outcomes.{>>=-eq-ok}
use safactory_server.Exec.{World, now}
use safactory_server.Exec.Answers.{Answers, Answers-pure, Answers-raise, Answers-any, Answers-bind}
use safactory_server.Catalog
use safactory_server.Catalog.{
  RealCatalog, RangeConfig, ModelConfig, keys, ranges_at, find_range, resolve_range, or_unavailable,
  entity_or_none,
}
use safactory_server.Platform.Sessions.{is_among}
use safactory_server.Runtime.Repository.{Repository, ask}
use safactory_server.Runtime.Jobs
use safactory_server.Runtime.Jobs.{Resolved, insert_job, insert_resolved}
use safactory_server.Service.Creation.{refuse, check_model, check_range, create_job}

-- A range of the document is open to jobs under that id.
abbrev pub IsOpen : String → RangeConfig → Type 0
IsOpen range_id q = (q.range_id ≡ range_id) × (q.available ≡ true)

-- The catalog has the model, and at some access an open range; the job is new and of the two.
pub record IsAdmitted (catalog : RealCatalog) (model_id range_id : String) (j : CreatedJob)
    : Type 0 where
  pub model_known : is_among model_id (keys catalog.gateway_routes) ≡ true
  pub access : ℕ
  pub ranges : List RangeConfig
  pub read : ranges_at catalog access ≡ ok ranges
  pub offered : Any (IsOpen range_id) ranges
  pub of_model : j.model_id ≡ model_id
  pub of_range : j.range_id ≡ range_id
  pub fresh : j.status ≡ JobStatus.queued

or_unavailable-eq :
    (m : Outcome (Option RangeConfig)) (item : Option RangeConfig)
    → or_unavailable m ≡ ok item
    → m ≡ ok item
unfolding or_unavailable
or_unavailable-eq (ok a) item h = h
or_unavailable-eq (raised trusted_config_error) item h = cc h
or_unavailable-eq (raised e) item h = cc h

find_range-Any :
    (range_id : String) (ranges : List RangeConfig) (q : RangeConfig)
    → find_range range_id ranges ≡ some q
    → q.available ≡ true
    → Any (IsOpen range_id) ranges
unfolding find_range
find_range-Any range_id [] q h up = cc h
find_range-Any range_id (p ∷ ranges) q h up = elim (Bool-cases (same_text p.range_id range_id)) [
  | inl here ↦
      let e : some p ≡ some q = sym (rw here refl) ∙ h in
      let same : p ≡ q = cc e in
      inl ((eq_iff p.range_id range_id).0 here, ap (λ x. x.available) same ∙ up)
  | inr there ↦ inr (find_range-Any range_id ranges q (sym (rw there refl) ∙ h) up)
]

module _ (r : Repository) (model_id range_id : String) where
  abbrev IsNew : CreatedJob → Type 0
  IsNew j = (j.model_id ≡ model_id) × ((j.range_id ≡ range_id) × (j.status ≡ JobStatus.queued))

  insert_job-Answers :
      (gateway_json checksum : String)
      → Answers (insert_job r model_id range_id gateway_json checksum) IsNew
  unfolding insert_job
  insert_job-Answers gateway_json checksum =
      Answers-bind (ask (λ n. Outcome.ok (r.new_id n))) _ (Answers-any _) (λ job_id _.
        Answers-bind (now r.ctx.env) _ (Answers-any _) (λ t _.
          Answers-bind _ _ (Answers-any _)
            (λ _ _. Answers-bind _ _ (Answers-any _) (λ _ _. Answers-pure _ (refl, (refl, refl))))))

  insert_resolved-Answers :
      (found : Resolved) → Answers (insert_resolved r model_id range_id found) IsNew
  unfolding insert_resolved
  insert_resolved-Answers found = elim (Option-cases (found.model)) [
    | inl unknown ↦ rw unknown (Answers-raise _)
    | inr (model, known) ↦ rw known (elim (Option-cases (found.range_config)) [
      | inl no_range ↦ rw no_range (Answers-raise _)
      | inr (range_config, there) ↦ rw there (insert_job-Answers _ _)
    ])
  ]

  inserted : Answers (Jobs.create_job r model_id range_id) IsNew
  unfolding Jobs.create_job
  inserted =
      Answers-bind _ (insert_resolved r model_id range_id) (Answers-any _)
        (λ found _. insert_resolved-Answers found)

  check_model-Answers :
      Answers
        (check_model model_id (Catalog.get_model r.catalog model_id))
        (λ u. is_among model_id (keys r.catalog.gateway_routes) ≡ true)
  unfolding check_model Catalog.get_model refuse
  check_model-Answers = elim (Bool-cases (is_among model_id (keys r.catalog.gateway_routes))) [
    | inl known ↦ rw known (Answers-pure _ refl)
    | inr unknown ↦ rw unknown (Answers-raise _)
  ]

  -- An access to the catalog gave this range.
  record IsRead (o : Option Range) : Type 0 where
    access : ℕ
    ranges : List RangeConfig
    read : ranges_at r.catalog access ≡ ok ranges
    same : entity_or_none (find_range range_id ranges) ≡ o

  range-IsRead :
      (n : ℕ) (o : Option Range) → Catalog.get_range r.catalog n range_id ≡ ok o → IsRead o
  unfolding Catalog.get_range resolve_range
  range-IsRead n o h =
      let (item, (e, k)) = >>=-eq-ok (or_unavailable (resolve_range r.catalog n range_id)) _ h in
      let (ranges, (e', k')) =
        >>=-eq-ok (ranges_at r.catalog n) _
          (or_unavailable-eq (resolve_range r.catalog n range_id) item e) in
      let a : find_range range_id ranges ≡ item = cc k' in
      let b : entity_or_none item ≡ o = cc k in
      record { access = n; ranges = ranges; read = e'; same = ap entity_or_none a ∙ b }

  -- The range that was read is open.
  record IsOffered : Type 0 where
    access : ℕ
    ranges : List RangeConfig
    read : ranges_at r.catalog access ≡ ok ranges
    offered : Any (IsOpen range_id) ranges

  offered_by :
      (o : Option RangeConfig) (ranges : List RangeConfig) (range_config : Range)
      → entity_or_none o ≡ some range_config
      → find_range range_id ranges ≡ o
      → range_config.available ≡ true
      → Any (IsOpen range_id) ranges
  unfolding entity_or_none
  offered_by none ranges range_config e f up = cc e
  offered_by (some q) ranges range_config e f up =
      let same : Catalog.range_entity q ≡ range_config = cc e in
      find_range-Any range_id ranges q f (ap (λ x. x.available) same ∙ up)

  check_range-Answers :
      (o : Option Range) → IsRead o → Answers (check_range range_id o) (λ u. IsOffered)
  unfolding check_range refuse
  check_range-Answers none i = Answers-raise _
  check_range-Answers (some range_config) i = elim (Bool-cases (range_config.available)) [
    | inr closed_off ↦ rw closed_off (Answers-raise _)
    | inl up ↦ rw up (
        Answers-pure _ (record {
          access = i.access;
          ranges = i.ranges;
          read = i.read;
          offered = offered_by (find_range range_id i.ranges) i.ranges range_config i.same refl up;
        }))
  ]

  asked : Answers (ask (λ n. Catalog.get_range r.catalog n range_id)) IsRead
  unfolding ask
  asked = record { at = λ w o h. range-IsRead w.tick o h }

  admitted : Answers (create_job r model_id range_id) (IsAdmitted r.catalog model_id range_id)
  unfolding create_job
  admitted = Answers-bind _ _ check_model-Answers (λ _ known.
      Answers-bind _ _ asked
        (λ o read. Answers-bind _ _ (check_range-Answers o read) (λ _ i. named known i)))
    where
      named :
          is_among model_id (keys r.catalog.gateway_routes) ≡ true
          → IsOffered
          → Answers (Jobs.create_job r model_id range_id) (IsAdmitted r.catalog model_id range_id)
      named known i = record {
        at = λ w j h.
            let n = inserted.at w j h in
            record {
              model_known = known;
              access = i.access;
              ranges = i.ranges;
              read = i.read;
              offered = i.offered;
              of_model = n.0;
              of_range = n.1.0;
              fresh = n.1.1;
            };
      }

-- Whenever the service answers the creation of a job: the Gateway has a route for the model, some access
-- to the catalog gave a valid document with an available range of that id, and the job is queued, of
-- that model and of that range; whatever other tasks do meanwhile.
pub create_job-IsAdmitted :
    (r : Repository) (model_id range_id : String) (w : World) (j : CreatedJob)
    → (create_job r model_id range_id w).0 ≡ ok j
    → IsAdmitted r.catalog model_id range_id j
create_job-IsAdmitted r model_id range_id w j h = (admitted r model_id range_id).at w j h
