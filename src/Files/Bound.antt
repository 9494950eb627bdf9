-- ===== src/Files/Bound.antt =====
-- `bind` of file_manager.py gives a job one binding for ever.
use Prim.Native.String.{String}
use safactory_server.Base.{ℕ, Bool, true, false, List, ◌≡◌, refl, arith}
use safactory_server.Store.Failure.{Outcome, ok, raised}
use safactory_server.Outcomes.{◌>>=◌, >>=-eq-ok}
use safactory_server.Catalog.{RangeConfig}
use safactory_server.Files.{JobFileBinding}
use safactory_server.Files.Sources.{FileManager}
use safactory_server.Files.Render.{StagedFile}
use safactory_server.Files.Text.{Codec, from_json, binding_json}
use safactory_server.Files.Publish.{
  published, Storage, directory_of, Fault, no_fault, unreadable, no_staging, no_write,
  published_binding, checked_range, matching, bind_in, bind_checked, bind,
}
use safactory_server.Files.Immutable.{
  IsOf, IsBound, in-IsBound, checked_keeps, matching-IsOf, checked_range-eq,
}

-- For every call of `bind`, for whichever job and range, whether it returns or raises and whatever the
-- file system refuses to it: the directory of a job that was published keeps its text and its files.
pub bind_keeps :
    (fm : FileManager) (codec : Codec) (n : ℕ) (fault : Fault) (job_id range_id : String)
    (storage : Storage) (k content : String) (files : List StagedFile)
    → directory_of k storage ≡ published content files
    → directory_of k (bind fm codec n fault job_id range_id storage).1 ≡ published content files
unfolding bind
bind_keeps fm codec n fault job_id range_id storage k content files h =
    checked_keeps fm codec fault job_id range_id k content files
      (checked_range fm n job_id range_id) storage h

-- The text of `.binding.json` is not refused.
abbrev pub can_read : Fault → Bool
can_read no_fault = true
can_read unreadable = false
can_read no_staging = true
can_read no_write = true

module _ (fm : FileManager) (codec : Codec) (job_id range_id : String) (b : JobFileBinding) where
  checked-IsBound :
      (fault : Fault) (o : Outcome RangeConfig) (storage : Storage)
      → codec.json_loads (codec.json_dumps (binding_json b)) ≡ ok (binding_json b)
      → ((r : RangeConfig) → o ≡ ok r → r.range_id ≡ range_id)
      → (bind_checked fm codec fault job_id range_id o storage).0 ≡ ok b
      → IsBound fm codec fault job_id range_id b
          (bind_checked fm codec fault job_id range_id o storage).1
  unfolding bind_checked
  checked-IsBound fault (raised e) storage round_trip named h = cc h
  checked-IsBound fault (ok r) storage round_trip named h =
      in-IsBound fm codec fault job_id range_id b round_trip r (directory_of job_id storage) storage
        (named r refl) refl h

  read_published :
      (fault : Fault) (content : String)
      → can_read fault ≡ true
      → published_binding codec fault content ≡ from_json codec content
  unfolding published_binding
  read_published no_fault content can = refl
  read_published unreadable content can = ground (arith)
  read_published no_staging content can = refl
  read_published no_write content can = refl

  bound_again :
      (fault : Fault) (r : RangeConfig) (storage : Storage) (content : String)
      (files : List StagedFile)
      → can_read fault ≡ true
      → directory_of job_id storage ≡ published content files
      → (from_json codec content >>= matching job_id range_id) ≡ ok b
      → bind_checked fm codec fault job_id range_id (ok r) storage ≡ (ok b, storage)
  unfolding bind_checked bind_in
  bound_again fault r storage content files can here reads =
      rw here (rw (read_published fault content can) (rw reads refl))

-- Let `json.loads` give back what `json.dumps` wrote of a binding that `bind` returns. Then it is of that
-- job and that range, and every later call with the same arguments that finds the range available and
-- can read `.binding.json` returns that same binding and changes nothing, whether or not writes are
-- refused by then.
pub bind_again :
    (fm : FileManager) (codec : Codec) (job_id range_id : String) (n n' : ℕ) (fault later : Fault)
    (storage : Storage) (b : JobFileBinding) (r : RangeConfig)
    → codec.json_loads (codec.json_dumps (binding_json b)) ≡ ok (binding_json b)
    → (bind fm codec n fault job_id range_id storage).0 ≡ ok b
    → checked_range fm n' job_id range_id ≡ ok r
    → can_read later ≡ true
    → IsOf job_id range_id b
      × (bind fm codec n' later job_id range_id (bind fm codec n fault job_id range_id storage).1
          ≡ (ok b, (bind fm codec n fault job_id range_id storage).1))
unfolding bind
bind_again fm codec job_id range_id n n' fault later storage b r loads h available can =
    let bound =
      checked-IsBound fm codec job_id range_id b fault (checked_range fm n job_id range_id) storage
        loads (λ q e. checked_range-eq fm n job_id range_id q e) h in
    let (c, (read, matches)) =
      >>=-eq-ok (from_json codec bound.content) (matching job_id range_id) bound.reads in
    (
      matching-IsOf job_id range_id c b matches,
      rw available (
          bound_again fm codec job_id range_id b later r _ bound.content bound.files can bound.here
            bound.reads),
    )
