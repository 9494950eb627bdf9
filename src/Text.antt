-- ===== src/Text.antt =====
-- Python's `str` methods that the server uses, on native texts. `str.lower`, `str.isalnum` and
-- `str.strip()` depend on Unicode tables: they are parameters (see Exec).
use Prim.Native.Char.{Char, code}
use Prim.Native.String.{String}
use safactory_server.Base.{
  ℕ, zero, suc, Bool, true, false, List, [], ◌∷◌, ◌==◌, ◌&&◌, if◌then◌else◌,
}

abbrev pub is_empty : String → Bool
is_empty String.[] = true
is_empty (String.◌∷◌ c s) = false

-- `len(s)`: characters.
unfoldable pub count_chars : String → ℕ
count_chars String.[] = 0
count_chars (String.◌∷◌ c s) = suc (count_chars s)

-- `s[:n]`.
unfoldable pub take : ℕ → String → String
take zero s = String.[]
take (suc n) String.[] = String.[]
take (suc n) (String.◌∷◌ c s) = String.◌∷◌ c (take n s)

-- `s.lstrip(chars)`, for the test whether a character is one of `chars`.
unfoldable pub lstrip : (Char → Bool) → String → String
lstrip p String.[] = String.[]
lstrip p (String.◌∷◌ c s) = let rest = lstrip p s in if p c then rest else String.◌∷◌ c s

-- `s.rstrip(chars)`.
unfoldable pub rstrip : (Char → Bool) → String → String
rstrip p String.[] = String.[]
rstrip p (String.◌∷◌ c s) =
    let rest = rstrip p s in if p c && is_empty rest then String.[] else String.◌∷◌ c rest

-- `s.strip(chars)`.
unfoldable pub strip : (Char → Bool) → String → String
unfolding lstrip rstrip
strip p s = rstrip p (lstrip p s)

-- All characters pass the test.
unfoldable pub all_chars : (Char → Bool) → String → Bool
all_chars p String.[] = true
all_chars p (String.◌∷◌ c s) = p c && all_chars p s

cons_char : Char → List String → List String
cons_char c [] = (String.◌∷◌ c String.[]) ∷ []
cons_char c (w ∷ ws) = (String.◌∷◌ c w) ∷ ws

-- `s.split(sep)` at one character.
unfoldable pub split : (Char → Bool) → String → List String
unfolding cons_char
split p String.[] = String.[] ∷ []
split p (String.◌∷◌ c s) =
    let rest = split p s in if p c then String.[] ∷ rest else cons_char c rest

abbrev pub is_char : ℕ → Char → Bool
is_char n c = code c == n

abbrev pub is_dot : Char → Bool
is_dot = is_char b'.'

abbrev pub is_slash : Char → Bool
is_slash = is_char b'/'

abbrev pub is_dash : Char → Bool
is_dash = is_char b'-'
