-- ===== src/Service/Redaction.antt =====
-- `_redact_sensitive_values` of src/server/application/service.py.
use Prim.Native.Char.{Char, code}
use safactory_server.Base.{
  String, Bool, true, false, ◌≡◌, refl, sym, ap, ◌||◌, ◌==◌, same_text, if◌then◌else◌,
}
use safactory_server.Json.{
  Json, null, bool, int, float, text, array, object, Items, nil, cons, Fields, end, field,
}

abbrev underscore : Char
underscore = "_"

-- `s.replace("-", "_")`.
unfoldable pub underscored : String → String
underscored String.[] = String.[]
underscored (String.◌∷◌ c s) = String.◌∷◌ (if code c == b'-' then underscore else c) (underscored s)

-- `SENSITIVE_TRAJECTORY_KEYS`.
unfoldable pub is_sensitive_key : String → Bool
is_sensitive_key k =
    same_text k "access_token"
    || same_text k "api_key"
    || same_text k "authorization"
    || same_text k "credential"
    || same_text k "credential_ref"
    || same_text k "host_path"
    || same_text k "mount_source"
    || same_text k "password"
    || same_text k "refresh_token"
    || same_text k "secret"

-- The test of a key, for a lower-casing of texts.
unfoldable pub is_hidden : (String → String) → String → Bool
unfolding underscored is_sensitive_key
is_hidden lower key = is_sensitive_key (underscored (lower key))

unfoldable mutual
  pub redact : (String → String) → Json → Json
  redact lower (array items) = array (redact_items lower items)
  redact lower (object fields) = object (redact_fields lower fields)
  redact lower null = null
  redact lower (bool b) = bool b
  redact lower (int n) = int n
  redact lower (float t) = float t
  redact lower (text t) = text t

  pub redact_items : (String → String) → Items → Items
  redact_items lower nil = nil
  redact_items lower (cons value items) = cons (redact lower value) (redact_items lower items)

  pub redact_fields : (String → String) → Fields → Fields
  redact_fields lower end = end
  redact_fields lower (field key value fields) =
      let shown = redact lower value in
      field key (if is_hidden lower key then text "[REDACTED]" else shown)
        (redact_fields lower fields)

-- At every depth a key that the test hides has the mark for its value.
mutual
  pub IsClean : (String → String) → Json → Type 0
  IsClean lower (array items) = AreClean lower items
  IsClean lower (object fields) = HasCleanFields lower fields
  IsClean lower null = Unit
  IsClean lower (bool b) = Unit
  IsClean lower (int n) = Unit
  IsClean lower (float t) = Unit
  IsClean lower (text t) = Unit

  pub AreClean : (String → String) → Items → Type 0
  AreClean lower nil = Unit
  AreClean lower (cons value items) = IsClean lower value × AreClean lower items

  pub HasCleanFields : (String → String) → Fields → Type 0
  HasCleanFields lower end = Unit
  HasCleanFields lower (field key value fields) =
      IsClean lower value
      × ((is_hidden lower key ≡ true → value ≡ text "[REDACTED]") × HasCleanFields lower fields)

shown-IsClean :
    (lower : String → String) (b : Bool) (v : Json)
    → IsClean lower v
    → IsClean lower (if b then text "[REDACTED]" else v)
unfolding IsClean
shown-IsClean lower true v h = tt
shown-IsClean lower false v h = h

shown_marked :
    (b : Bool) (v : Json) → b ≡ true → (if b then text "[REDACTED]" else v) ≡ text "[REDACTED]"
shown_marked b v h = rw h refl

mutual
  unfolding redact redact_items redact_fields IsClean AreClean HasCleanFields

  clean : (lower : String → String) (v : Json) → IsClean lower (redact lower v)
  clean lower (array items) = clean_items lower items
  clean lower (object fields) = clean_fields lower fields
  clean lower null = tt
  clean lower (bool b) = tt
  clean lower (int n) = tt
  clean lower (float t) = tt
  clean lower (text t) = tt

  clean_items : (lower : String → String) (vs : Items) → AreClean lower (redact_items lower vs)
  clean_items lower nil = tt
  clean_items lower (cons v vs) = (clean lower v, clean_items lower vs)

  clean_fields :
      (lower : String → String) (fs : Fields) → HasCleanFields lower (redact_fields lower fs)
  clean_fields lower end = tt
  clean_fields lower (field k v fs) = (
    shown-IsClean lower (is_hidden lower k) (redact lower v) (clean lower v),
    (shown_marked (is_hidden lower k) (redact lower v), clean_fields lower fs),
  )

kept_field :
    (b : Bool) (v w : Json)
    → w ≡ v
    → (b ≡ true → v ≡ text "[REDACTED]")
    → (if b then text "[REDACTED]" else w) ≡ v
kept_field true v w same mark = sym (mark refl)
kept_field false v w same mark = same

mutual
  unfolding redact redact_items redact_fields IsClean AreClean HasCleanFields

  untouched : (lower : String → String) (v : Json) → IsClean lower v → redact lower v ≡ v
  untouched lower (array items) h = ap array (untouched_items lower items h)
  untouched lower (object fields) h = ap object (untouched_fields lower fields h)
  untouched lower null h = refl
  untouched lower (bool b) h = refl
  untouched lower (int n) h = refl
  untouched lower (float t) h = refl
  untouched lower (text t) h = refl

  untouched_items :
      (lower : String → String) (vs : Items) → AreClean lower vs → redact_items lower vs ≡ vs
  untouched_items lower nil h = refl
  untouched_items lower (cons v vs) h = cc (untouched lower v h.0, untouched_items lower vs h.1)

  untouched_fields :
      (lower : String → String) (fs : Fields)
      → HasCleanFields lower fs
      → redact_fields lower fs ≡ fs
  untouched_fields lower end h = refl
  untouched_fields lower (field k v fs) h =
      let shown = kept_field (is_hidden lower k) v (redact lower v) (untouched lower v h.0) h.1.0 in
      cc (shown, untouched_fields lower fs h.1.1)

-- For every lower-casing of texts and every value: after redaction every key with a sensitive name,
-- at any depth of objects and lists, has the mark "[REDACTED]" for its value, and redacting twice is
-- redacting once.
pub redact-IsClean :
    (lower : String → String) (v : Json)
    → IsClean lower (redact lower v) × (redact lower (redact lower v) ≡ redact lower v)
redact-IsClean lower v = (clean lower v, untouched lower (redact lower v) (clean lower v))
