-- ===== src/Files/Immutable.antt =====
-- Lemmas on `bind` of file_manager.py: what it renders is of its job, and what it publishes stays.
use Prim.Native.String.{String}
use package.text.Mathlib.TextEquality.{eq_iff}
use safactory_server.Base.{
  ℕ, false, ◌&&◌, Option, none, some, List, [], ◌∷◌, map, same_text, ◌≡◌, refl, sym, ap, ◌∙◌, subst,
  Bool-cases, inl, inr, arith,
}
use safactory_server.Store.Failure.{file_binding_error, Outcome, ok, raised}
use safactory_server.Outcomes.{◌>>=◌, require, >>=-eq-ok, ok_injective, Gives, Gives-bind}
use safactory_server.Catalog.{RangeConfig, RangeGroupConfig, resolve_range, find_range, ranges_at}
use safactory_server.Files.{JobFileBinding}
use safactory_server.Json.{Fields, array}
use safactory_server.Platform.Values.{get}
use safactory_server.Runtime.Artifacts.{is_safe_name}
use safactory_server.Files.Sources.{FileManager, read_yaml, as_entries, join_source}
use safactory_server.Files.Render.{
  Rendered, StagedFile, LauncherConfig, RenderedGroup, environments_by_name, same_names, only_group,
  render_launcher, environment_at, render_group, set_field, to_items, replace_environment,
  rendered_binding, render_binding,
}
use safactory_server.Files.Text.{Codec, to_json, from_json, binding_json}
use safactory_server.Files.RoundTrip.{from_json-to_json}
use safactory_server.Files.Publish.{
  InputDirectory, missing, partial, published, Storage, directory_of, Fault, no_fault, unreadable,
  no_staging, no_write, published_binding, available_range, checked_range, matching, publish,
  bind_in, bind_checked,
}

-- A binding is of that job and that range.
abbrev pub IsOf : String → String → JobFileBinding → Type 0
IsOf job_id range_id b = (b.job_id ≡ job_id) × (b.range_id ≡ range_id)

module _ (fm : FileManager) (job_id : String) (range_config : RangeConfig) where
  abbrev Named : Rendered → Type 0
  Named r = IsOf job_id range_config.range_id r.binding

  rendered_binding-Named :
      (group : RangeGroupConfig) (launcher : LauncherConfig) (pass : RenderedGroup) (agent : Fields)
      → Named (rendered_binding fm job_id range_config group launcher pass agent)
  unfolding rendered_binding
  rendered_binding-Named group launcher pass agent = (refl, refl)

  render_binding-Gives : Gives Named (render_binding fm job_id range_config)
  unfolding render_binding
  render_binding-Gives =
      Gives-bind Named (read_yaml fm (fm.resolve_source range_config.agent_config)) _ (λ agent.
        Gives-bind Named (as_entries (get "environments" agent)) _ (λ environments.
          Gives-bind Named (environments_by_name [] environments) _ (λ by_name.
            Gives-bind Named
              (require
                (same_names (map (λ e. e.0) by_name) (map (λ g. g.env_name) range_config.groups))
                file_binding_error)
              _
              (λ named. Gives-bind Named (only_group range_config.groups) _ (λ group.
                Gives-bind Named (render_launcher fm range_config.launcher_rjob_config) _
                  (λ launcher.
                    Gives-bind Named (environment_at group.env_name by_name) _ (λ environment.
                      Gives-bind Named
                        (render_group fm (join_source fm.results_rjob_root job_id) environment
                          group)
                        _
                        (λ pass. rendered_binding-Named group launcher pass (
                          set_field "environments"
                            (array (
                              to_items
                                (replace_environment group.env_name pass.environment by_name)))
                            agent)))))))))

find_range-eq :
    (range_id : String) (ranges : List RangeConfig) (r : RangeConfig)
    → find_range range_id ranges ≡ some r
    → r.range_id ≡ range_id
unfolding find_range
find_range-eq range_id [] r h = cc h
find_range-eq range_id (q ∷ ranges) r h = elim (Bool-cases (same_text q.range_id range_id)) [
  | inl here ↦
      let e : some q ≡ some r = sym (rw here refl) ∙ h in
      let same : q ≡ r = cc e in
      ap (λ x. x.range_id) (sym same) ∙ (eq_iff q.range_id range_id).0 here
  | inr there ↦ find_range-eq range_id ranges r (sym (rw there refl) ∙ h)
]

available-eq : (o : Option RangeConfig) (r : RangeConfig) → available_range o ≡ ok r → o ≡ some r
unfolding available_range
available-eq none r h = cc h
available-eq (some q) r h = elim (Bool-cases (q.available)) [
  | inl fits ↦ let e : ok q ≡ ok r = sym (rw fits refl) ∙ h in cc e
  | inr differs ↦ let e : raised file_binding_error ≡ ok r = sym (rw differs refl) ∙ h in cc e
]

pub checked_range-eq :
    (fm : FileManager) (n : ℕ) (job_id range_id : String) (r : RangeConfig)
    → checked_range fm n job_id range_id ≡ ok r
    → r.range_id ≡ range_id
unfolding checked_range
checked_range-eq fm n job_id range_id r h =
    let (safe, (h1, k1)) = >>=-eq-ok (require (is_safe_name job_id) file_binding_error) _ h in
    let (found, (h2, k2)) = >>=-eq-ok (resolve_range fm.catalog n range_id) _ k1 in
    let (ranges, (h3, k3)) = >>=-eq-ok (ranges_at fm.catalog n) _ (unfold resolve_range in h2) in
    let e : find_range range_id ranges ≡ found = cc k3 in
    find_range-eq range_id ranges r (e ∙ available-eq found r k2)

pub matching-IsOf :
    (job_id range_id : String) (b b' : JobFileBinding)
    → matching job_id range_id b ≡ ok b'
    → IsOf job_id range_id b'
unfolding matching
matching-IsOf job_id range_id b b' h =
    elim (Bool-cases (same_text b.job_id job_id && same_text b.range_id range_id)) [
      | inr differs ↦ let e : raised file_binding_error ≡ ok b' = sym (rw differs refl) ∙ h in cc e
      | inl fits ↦
          let e : ok b ≡ ok b' = sym (rw fits refl) ∙ h in
          subst (IsOf job_id range_id) (ok_injective b b' e) (
            (eq_iff b.job_id job_id).0 (ground (arith)),
            (eq_iff b.range_id range_id).0 (ground (arith)),
          )
    ]

matching_own :
    (job_id range_id : String) (b : JobFileBinding)
    → IsOf job_id range_id b
    → matching job_id range_id b ≡ ok b
unfolding matching
matching_own job_id range_id b h =
    rw ((eq_iff b.job_id job_id).1 h.0, (eq_iff b.range_id range_id).1 h.1) refl

directory_added :
    (job_id k : String) (d : InputDirectory) (storage : Storage)
    → same_text k job_id ≡ false
    → directory_of job_id ((k, d) ∷ storage) ≡ directory_of job_id storage
unfolding directory_of
directory_added job_id k d storage h = rw h refl

directory_own :
    (job_id : String) (d : InputDirectory) (storage : Storage)
    → directory_of job_id ((job_id, d) ∷ storage) ≡ d
unfolding directory_of
directory_own job_id d storage = rw ((eq_iff job_id job_id).1 refl) refl

module _ (fm : FileManager) (codec : Codec) (fault : Fault) (job_id range_id : String) where
  module _ (k content : String) (files : List StagedFile) where
    added_keeps :
        (d : InputDirectory) (storage : Storage)
        → directory_of job_id storage ≡ missing
        → directory_of k storage ≡ published content files
        → directory_of k ((job_id, d) ∷ storage) ≡ published content files
    added_keeps d storage none_yet h = elim (Bool-cases (same_text job_id k)) [
      | inr other ↦ directory_added k job_id d storage other ∙ h
      | inl same ↦
          let e : job_id ≡ k = (eq_iff job_id k).0 same in
          let clash : missing ≡ published content files =
            sym none_yet ∙ ap (λ j. directory_of j storage) e ∙ h in
          cc clash
    ]

    publish_keeps :
        (f : Fault) (o : Outcome Rendered) (storage : Storage)
        → directory_of job_id storage ≡ missing
        → directory_of k storage ≡ published content files
        → directory_of k (publish codec f job_id o storage).1 ≡ published content files
    unfolding publish
    publish_keeps no_staging o storage none_yet h = h
    publish_keeps no_write (raised e) storage none_yet h = h
    publish_keeps no_write (ok rendered) storage none_yet h = h
    publish_keeps no_fault (raised e) storage none_yet h = h
    publish_keeps no_fault (ok rendered) storage none_yet h = added_keeps _ storage none_yet h
    publish_keeps unreadable (raised e) storage none_yet h = h
    publish_keeps unreadable (ok rendered) storage none_yet h = added_keeps _ storage none_yet h

    in_keeps :
        (range_config : RangeConfig) (d : InputDirectory) (storage : Storage)
        → directory_of job_id storage ≡ d
        → directory_of k storage ≡ published content files
        → directory_of k (bind_in fm codec fault job_id range_id range_config d storage).1
          ≡ published content files
    unfolding bind_in
    in_keeps range_config (published c fs) storage e h = h
    in_keeps range_config partial storage e h = h
    in_keeps range_config missing storage e h = publish_keeps fault _ storage e h

    pub checked_keeps :
        (o : Outcome RangeConfig) (storage : Storage)
        → directory_of k storage ≡ published content files
        → directory_of k (bind_checked fm codec fault job_id range_id o storage).1
          ≡ published content files
    unfolding bind_checked
    checked_keeps (raised e) storage h = h
    checked_keeps (ok range_config) storage h =
        in_keeps range_config (directory_of job_id storage) storage refl h

  -- The job is published as this binding.
  pub record IsBound (b : JobFileBinding) (storage : Storage) : Type 0 where
    pub content : String
    pub files : List StagedFile
    pub here : directory_of job_id storage ≡ published content files
    pub reads : (from_json codec content >>= matching job_id range_id) ≡ ok b

  read_anyway :
      (f : Fault) (content : String) (b : JobFileBinding)
      → (published_binding codec f content >>= matching job_id range_id) ≡ ok b
      → (from_json codec content >>= matching job_id range_id) ≡ ok b
  unfolding published_binding
  read_anyway unreadable content b h = cc h
  read_anyway no_fault content b h = h
  read_anyway no_staging content b h = h
  read_anyway no_write content b h = h

  module _ (b : JobFileBinding)
      (loads : codec.json_loads (codec.json_dumps (binding_json b)) ≡ ok (binding_json b)) where
    added-IsBound :
        (rendered : Rendered) (storage : Storage)
        → IsOf job_id range_id rendered.binding
        → ok rendered.binding ≡ ok b
        → IsBound b ((job_id, published (to_json codec rendered.binding) rendered.files) ∷ storage)
    added-IsBound rendered storage own e =
        let same = ok_injective rendered.binding b e in
        record {
          content = to_json codec rendered.binding;
          files = rendered.files;
          here = directory_own job_id _ storage;
          reads =
              ap (λ x. from_json codec (to_json codec x) >>= matching job_id range_id) same
              ∙ rw (from_json-to_json codec b loads)
                  (matching_own job_id range_id b (subst (IsOf job_id range_id) same own));
        }

    publish-IsBound :
        (f : Fault) (o : Outcome Rendered) (storage : Storage)
        → Gives (λ r. IsOf job_id range_id r.binding) o
        → (publish codec f job_id o storage).0 ≡ ok b
        → IsBound b (publish codec f job_id o storage).1
    unfolding publish
    publish-IsBound no_staging o storage own h = cc h
    publish-IsBound no_write (raised e) storage own h = cc h
    publish-IsBound no_write (ok rendered) storage own h = cc h
    publish-IsBound no_fault (raised e) storage own h = cc h
    publish-IsBound no_fault (ok rendered) storage own h = added-IsBound rendered storage own h
    publish-IsBound unreadable (raised e) storage own h = cc h
    publish-IsBound unreadable (ok rendered) storage own h = added-IsBound rendered storage own h

    pub in-IsBound :
        (range_config : RangeConfig) (d : InputDirectory) (storage : Storage)
        → range_config.range_id ≡ range_id
        → directory_of job_id storage ≡ d
        → (bind_in fm codec fault job_id range_id range_config d storage).0 ≡ ok b
        → IsBound b (bind_in fm codec fault job_id range_id range_config d storage).1
    unfolding bind_in
    in-IsBound range_config (published c fs) storage named e h = record {
      content = c;
      files = fs;
      here = e;
      reads = read_anyway fault c b h;
    }
    in-IsBound range_config partial storage named e h = cc h
    in-IsBound range_config missing storage named e h =
        publish-IsBound fault (render_binding fm job_id range_config) storage
          (subst (λ q. Gives (λ r. IsOf job_id q r.binding) (render_binding fm job_id range_config))
            named (render_binding-Gives fm job_id range_config))
          h
