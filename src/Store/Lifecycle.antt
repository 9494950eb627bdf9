-- ===== src/Store/Lifecycle.antt =====
-- How a row of `jobs` may change from one moment to a later one, and how the store may.
use safactory_server.Base.{
  ◌≤◌, String, true, some, List, [], ◌++◌, ◌≡◌, refl, sym, ap, ◌∙◌, ◌⊎◌, inl, append_assoc,
  append-nil, arith,
}
use safactory_server.Domain.{JobStatus}
use safactory_server.Store.Row.{ControlJob, is_terminal}
use safactory_server.Store.Table.{JobEvent, Store, find_row}

-- The columns that no method writes after the INSERT.
pub record SameIdentity (old new : ControlJob) : Type 0 where
  pub job_id : new.job_id ≡ old.job_id
  pub request_id : new.request_id ≡ old.request_id
  pub owner_username : new.owner_username ≡ old.owner_username
  pub model_id : new.model_id ≡ old.model_id
  pub model_checksum : new.model_checksum ≡ old.model_checksum
  pub model_gateway_json : new.model_gateway_json ≡ old.model_gateway_json
  pub range_id : new.range_id ≡ old.range_id
  pub created_at : new.created_at ≡ old.created_at

-- A terminal status stays; a closing job stays closing or becomes closed.
pub record MayBecome (s t : JobStatus) : Type 0 where
  pub terminal_stays : is_terminal s ≡ true → t ≡ s
  pub closing_stays : s ≡ JobStatus.closing → (t ≡ JobStatus.closing) ⊎ (t ≡ JobStatus.closed)

-- The version never falls, and a row with the same version is the same row.
pub record Evolves (old new : ControlJob) : Type 0 where
  pub identity : SameIdentity old new
  pub status : MayBecome old.status new.status
  pub version : old.version ≤ new.version
  pub unchanged : new.version ≡ old.version → new ≡ old

-- Rows are never deleted and change as above; the log of events only grows.
pub record Extends (s t : Store) : Type 0 where
  pub row :
      (job_id : String) (j : ControlJob)
      → find_row job_id s.jobs ≡ some j
      → (j' : ControlJob) × (find_row job_id t.jobs ≡ some j') × Evolves j j'
  pub log : (more : List JobEvent) × (t.log ≡ s.log ++ more)

pub SameIdentity-refl : (j : ControlJob) → SameIdentity j j
SameIdentity-refl j = ground arith

pub SameIdentity-trans :
    {a b c : ControlJob} → SameIdentity a b → SameIdentity b c → SameIdentity a c
SameIdentity-trans h k = record {
  job_id = k.job_id ∙ h.job_id;
  request_id = k.request_id ∙ h.request_id;
  owner_username = k.owner_username ∙ h.owner_username;
  model_id = k.model_id ∙ h.model_id;
  model_checksum = k.model_checksum ∙ h.model_checksum;
  model_gateway_json = k.model_gateway_json ∙ h.model_gateway_json;
  range_id = k.range_id ∙ h.range_id;
  created_at = k.created_at ∙ h.created_at;
}

pub MayBecome-refl : (s : JobStatus) → MayBecome s s
MayBecome-refl s = record { terminal_stays = λ _. refl; closing_stays = inl }

pub MayBecome-trans : (a b c : JobStatus) → MayBecome a b → MayBecome b c → MayBecome a c
MayBecome-trans a b c h k = ground arith

pub Evolves-refl : (j : ControlJob) → Evolves j j
Evolves-refl j = record {
  identity = SameIdentity-refl j;
  status = MayBecome-refl j.status;
  version = omega arith;
  unchanged = λ _. refl;
}

pub Evolves-trans : {a b c : ControlJob} → Evolves a b → Evolves b c → Evolves a c
Evolves-trans {a} {b} {c} h k = record {
  identity = SameIdentity-trans h.identity k.identity;
  status = MayBecome-trans a.status b.status c.status h.status k.status;
  version = omega (arith, h.version, k.version);
  unchanged = λ e.
      k.unchanged (omega (arith, h.version, k.version, e))
      ∙ h.unchanged (omega (arith, h.version, k.version, e));
}

pub Extends-refl : (s : Store) → Extends s s
Extends-refl s = record {
  row = λ job_id j h. (j, h, Evolves-refl j);
  log = ([], sym (append-nil s.log));
}

pub Extends-trans : (a b c : Store) → Extends a b → Extends b c → Extends a c
Extends-trans a b c h k = record {
  row = λ job_id j found.
      let (j', found', e) = h.row job_id j found in
      let (j'', found'', e') = k.row job_id j' found' in (j'', found'', Evolves-trans e e');
  log =
      let (xs, p) = h.log in
      let (ys, q) = k.log in (xs ++ ys, q ∙ ap (λ l. l ++ ys) p ∙ append_assoc a.log xs ys);
}
