-- ===== src/Orchestrator/Naming.antt =====
-- The names that `_safe_rjob_name` of orchestrator.py gives to RJobs.
use Prim.Native.Char.{Char}
use safactory_server.Base.{
  ℕ, zero, suc, String, Bool, true, false, ◌≡◌, refl, ◌≤◌, arith, Bool-cases, inl, inr,
  if◌then◌else◌,
}
use safactory_server.Text.{is_empty, count_chars, take, lstrip, rstrip, strip, all_chars}
use safactory_server.Orchestrator.Names.{
  is_name_char, is_edge, dash, or_default, replace_runs, safe_rjob_name,
}

abbrev pub first_is : (Char → Bool) → String → Bool
first_is q String.[] = false
first_is q (String.◌∷◌ c s) = q c

abbrev pub last_is : (Char → Bool) → String → Bool
last_is q String.[] = false
last_is q (String.◌∷◌ c s) = if is_empty s then q c else last_is q s

module _ (q : Char → Bool) where
  first-lstrip : (s : String) → first_is q (lstrip q s) ≡ false
  unfolding lstrip
  first-lstrip String.[] = refl
  first-lstrip (String.◌∷◌ c s) = ground (arith, first-lstrip s)

  first-rstrip : (s : String) → first_is q s ≡ false → first_is q (rstrip q s) ≡ false
  unfolding rstrip
  first-rstrip String.[] h = refl
  first-rstrip (String.◌∷◌ c s) h = ground arith

  rstrip_some :
      (s : String) → first_is q s ≡ false → is_empty s ≡ false → is_empty (rstrip q s) ≡ false
  unfolding rstrip
  rstrip_some String.[] h e = ground arith
  rstrip_some (String.◌∷◌ c s) h e = ground arith

  last-rstrip : (s : String) → last_is q (rstrip q s) ≡ false
  unfolding rstrip
  last-rstrip String.[] = refl
  last-rstrip (String.◌∷◌ c s) = ground (arith, last-rstrip s)

  first-take : (n : ℕ) (s : String) → first_is q (take (suc n) s) ≡ first_is q s
  unfolding take
  first-take n String.[] = refl
  first-take n (String.◌∷◌ c s) = refl

module _ (p q : Char → Bool) where
  all-lstrip : (s : String) → all_chars p s ≡ true → all_chars p (lstrip q s) ≡ true
  unfolding lstrip all_chars
  all-lstrip String.[] h = refl
  all-lstrip (String.◌∷◌ c s) h = ground (arith, all-lstrip s)

  all-rstrip : (s : String) → all_chars p s ≡ true → all_chars p (rstrip q s) ≡ true
  unfolding rstrip all_chars
  all-rstrip String.[] h = refl
  all-rstrip (String.◌∷◌ c s) h = ground (arith, all-rstrip s)

all-take :
    (p : Char → Bool) (n : ℕ) (s : String) → all_chars p s ≡ true → all_chars p (take n s) ≡ true
unfolding take all_chars
all-take p zero s h = refl
all-take p (suc n) String.[] h = refl
all-take p (suc n) (String.◌∷◌ c s) h = ground (arith, all-take p n s)

count-take : (n : ℕ) (s : String) → count_chars (take n s) ≤ n
unfolding take count_chars
count-take zero s = omega arith
count-take (suc n) String.[] = omega arith
count-take (suc n) (String.◌∷◌ c s) = omega (arith, count-take n s)

count-rstrip : (q : Char → Bool) (s : String) → count_chars (rstrip q s) ≤ count_chars s
unfolding rstrip count_chars
count-rstrip q String.[] = omega arith
count-rstrip q (String.◌∷◌ c s) = ground (arith, count-rstrip q s)

dash_name : is_name_char dash ≡ true
unfolding is_name_char
dash_name = refl

all_cons :
    (p : Char → Bool) (c : Char) (s : String)
    → p c ≡ true
    → all_chars p s ≡ true
    → all_chars p (String.◌∷◌ c s) ≡ true
unfolding all_chars
all_cons p c s here rest = rw (here, rest) refl

if_all :
    (b : Bool) (s : String)
    → all_chars is_name_char s ≡ true
    → all_chars is_name_char (if b then s else String.◌∷◌ dash s) ≡ true
if_all true s h = h
if_all false s h = all_cons is_name_char dash s dash_name h

all-replace_runs : (seen : Bool) (s : String) → all_chars is_name_char (replace_runs seen s) ≡ true
unfolding replace_runs
all-replace_runs seen String.[] = unfold all_chars in refl
all-replace_runs seen (String.◌∷◌ c s) = elim (Bool-cases (is_name_char c)) [
  | inl named ↦
      rw (named, replace_runs) (all_cons is_name_char c _ named (all-replace_runs false s))
  | inr other ↦ rw (other, replace_runs) (if_all seen _ (all-replace_runs true s))
]

-- A text that is not empty, has allowed characters only, and starts with no edge character.
record IsStart (s : String) : Type 0 where
  some_char : is_empty s ≡ false
  allowed : all_chars is_name_char s ≡ true
  no_edge : first_is is_edge s ≡ false

default-IsStart :
    (s : String)
    → all_chars is_name_char s ≡ true
    → first_is is_edge s ≡ false
    → IsStart (or_default s "safactory")
unfolding all_chars is_name_char
default-IsStart String.[] h e = record { some_char = refl; allowed = refl; no_edge = refl }
default-IsStart (String.◌∷◌ c s) h e = record { some_char = refl; allowed = h; no_edge = e }

take-IsStart : (n : ℕ) (s : String) → IsStart s → IsStart (take (suc n) s)
unfolding take all_chars
take-IsStart n String.[] h = h
take-IsStart n (String.◌∷◌ c s) h = record {
  some_char = refl;
  allowed = all-take is_name_char (suc n) (String.◌∷◌ c s) h.allowed;
  no_edge = h.no_edge;
}

-- What the platform takes for a name.
pub record IsName (s : String) : Type 0 where
  pub some_char : is_empty s ≡ false
  pub short : count_chars s ≤ 49
  pub allowed : all_chars is_name_char s ≡ true
  pub no_first_edge : first_is is_edge s ≡ false
  pub no_last_edge : last_is is_edge s ≡ false

-- For every lower-casing of texts and every text: the name has at least one and at most 49
-- characters, all of them lower-case letters, digits, dots and dashes, and neither its first nor its
-- last character is a dot or a dash.
pub safe_rjob_name-IsName :
    (lower : String → String) (value : String) → IsName (safe_rjob_name lower value)
unfolding safe_rjob_name strip
safe_rjob_name-IsName lower value =
    let runs = replace_runs false (lower value) in
    let left = lstrip is_edge runs in
    let allowed =
      all-rstrip is_name_char is_edge left
        (all-lstrip is_name_char is_edge runs (all-replace_runs false (lower value))) in
    let whole =
      default-IsStart (rstrip is_edge left) allowed
        (first-rstrip is_edge left (first-lstrip is_edge runs)) in
    let cut = take-IsStart 48 (or_default (rstrip is_edge left) "safactory") whole in
    let s = take 49 (or_default (rstrip is_edge left) "safactory") in
    record {
      some_char = rstrip_some is_edge s cut.no_edge cut.some_char;
      short = omega (
        arith,
        count-rstrip is_edge s,
        count-take 49 (or_default (rstrip is_edge left) "safactory"),
      );
      allowed = all-rstrip is_name_char is_edge s cut.allowed;
      no_first_edge = first-rstrip is_edge s cut.no_edge;
      no_last_edge = last-rstrip is_edge s;
    }
