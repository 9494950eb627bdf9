-- ===== src/Auth.antt =====
-- src/server/auth: the checks of the API-key document (schema.py) and `BearerAuthenticator`
-- (authenticator.py). `str.split()` and `str.lower` are given by `is_space` and `lower`.
pub mod Lookup
pub mod Raises
use Prim.Native.Char.{Char, code}
use Prim.Native.String.{String}
use safactory_server.Base.{
  ℕ, Bool, true, false, not, ◌==◌, ◌&&◌, ◌||◌, ltb, leb, Option, none, some, List, [], ◌∷◌, map,
  all, select, same_text, if◌then◌else◌,
}
use safactory_server.Text.{count_chars, all_chars, split, is_empty}
use safactory_server.Store.Failure.{type_error, Outcome, ok, raised}
use safactory_server.Outcomes.{◌>>=◌}
use safactory_server.Catalog.{are_unique, is_filled}
use safactory_server.Runtime.Artifacts.{is_letter_or_digit}

-- A user as pydantic has read it.
pub record TrustedUser : Type 0 where
  pub username : String
  pub api_key : String

abbrev is_username_char : Char → Bool
is_username_char c =
    is_letter_or_digit c
    || (code c == b'.' || (code c == b'_' || (code c == b'@' || code c == b'-')))

-- The pattern and the length of `username`.
unfoldable pub is_username : String → Bool
unfolding all_chars count_chars
is_username String.[] = false
is_username (String.◌∷◌ c s) =
    is_letter_or_digit c && (all_chars is_username_char s && leb (count_chars s) 127)

unfoldable pub is_ascii : String → Bool
unfolding all_chars
is_ascii s = all_chars (λ c. ltb (code c) 128) s

-- `validate_api_key`.
unfoldable pub is_api_key : (Char → Bool) → String → Bool
unfolding is_ascii all_chars count_chars
is_api_key is_space key =
    not (is_empty key)
    && leb (count_chars key) 512
    && all_chars (λ c. not (is_space c)) key
    && is_ascii key

-- `AuthConfig` accepts the users.
unfoldable pub is_valid_config : (Char → Bool) → List TrustedUser → Bool
unfolding is_username is_api_key are_unique all
is_valid_config is_space users =
    is_filled users
    && all (λ u. is_username u.username && is_api_key is_space u.api_key) users
    && are_unique (map (λ u. u.username) users)
    && are_unique (map (λ u. u.api_key) users)

-- The pairs of a name and a key.
abbrev pub Credentials : Type 0
Credentials = List (String × String)

-- `from_config`.
abbrev pub from_config : List TrustedUser → Credentials
from_config users = map (λ u. (u.username, u.api_key)) users

-- `s.split()`.
unfoldable pub words : (Char → Bool) → String → List String
unfolding split select
words is_space s = select (λ t. not (is_empty t)) (split is_space s)

-- `hmac.compare_digest` on two texts, which takes ASCII only.
unfoldable pub compare_digest : String → String → Outcome Bool
unfolding is_ascii
compare_digest presented trusted =
    if is_ascii presented && is_ascii trusted
    then ok (same_text trusted presented)
    else raised type_error

-- The loop over the credentials, which does not stop at a match.
unfoldable pub search_key : String → Credentials → Option String → Outcome (Option String)
unfolding compare_digest
search_key presented [] username = ok username
search_key presented ((name, key) ∷ credentials) username = compare_digest presented key >>= λ same.
    search_key presented credentials (if same then some name else username)

unfoldable pub of_parts : (String → String) → Credentials → List String → Outcome (Option String)
unfolding search_key
of_parts lower credentials [] = ok none
of_parts lower credentials (scheme ∷ []) = ok none
of_parts lower credentials (scheme ∷ presented ∷ []) =
    if same_text (lower scheme) "bearer" then search_key presented credentials none else ok none
of_parts lower credentials (scheme ∷ presented ∷ other ∷ parts) = ok none

-- `authenticate`.
unfoldable pub authenticate :
    (Char → Bool) → (String → String) → Credentials → List String → Outcome (Option String)
unfolding of_parts words
authenticate is_space lower credentials [] = ok none
authenticate is_space lower credentials (header ∷ []) =
    of_parts lower credentials (words is_space header)
authenticate is_space lower credentials (header ∷ other ∷ headers) = ok none
