-- ===== src/Orchestrator/Names.antt =====
-- The texts that orchestrator.py builds: RJob names, URLs and dictionaries of texts.
use Prim.Native.Char.{Char, code}
use Prim.Native.String.{◌++◌ as ◌+ₛ◌}
use safactory_server.Base.{
  ℕ, String, Bool, true, false, Option, none, some, List, [], ◌∷◌, ◌==◌, ◌&&◌, ◌||◌, leb, same_text,
  if◌then◌else◌,
}
use safactory_server.Text.{is_empty, take, lstrip, rstrip, strip, is_dot, is_dash, is_slash}
use safactory_server.Exec.{Library, IpAddress}

-- `a + b` on texts.
infixr 65 ◌<>◌
abbrev pub ◌<>◌ : String → String → String
◌<>◌ = ◌+ₛ◌

-- The class `[a-z0-9.-]` of the regular expression.
unfoldable pub is_name_char : Char → Bool
is_name_char c =
    (leb b'a' (code c) && leb (code c) b'z')
    || ((leb b'0' (code c) && leb (code c) b'9') || (is_dot c || is_dash c))

abbrev pub is_edge : Char → Bool
is_edge c = is_dash c || is_dot c

abbrev pub dash : Char
dash = Prim.Native.String.char_at "-" 0

-- `re.sub(r"[^a-z0-9.-]+", "-", s)`: each run of other characters becomes one dash. The flag says
-- that the run has its dash.
unfoldable pub replace_runs : Bool → String → String
replace_runs seen String.[] = String.[]
replace_runs seen (String.◌∷◌ c s) = elim (is_name_char c) [
  | true ↦ String.◌∷◌ c (replace_runs false s)
  | false ↦ let rest = replace_runs true s in if seen then rest else String.◌∷◌ dash rest
]

-- `normalized or "safactory"`.
abbrev pub or_default : String → String → String
or_default s d = if is_empty s then d else s

-- `_safe_rjob_name`.
unfoldable pub safe_rjob_name : (String → String) → String → String
unfolding replace_runs is_name_char strip take rstrip
safe_rjob_name lower value =
    rstrip is_edge
      (take 49 (or_default (strip is_edge (replace_runs false (lower value))) "safactory"))

-- `_append_url_path`.
unfoldable pub append_url_path : String → String → String
unfolding rstrip lstrip
append_url_path base_url path = rstrip is_slash base_url <> "/" <> lstrip is_slash path

unfoldable pub url_host : Option IpAddress → String → String
url_host none address = address
url_host (some ip) address = if ip.ip_version == 6 then "[" <> address <> "]" else address

-- `_gateway_url`.
unfoldable pub gateway_url_of : Library → String → String → ℕ → String
unfolding url_host
gateway_url_of lib scheme address port =
    scheme <> "://" <> url_host (lib.ip_address address) address <> ":" <> lib.decimal port

-- `d[k] = v`: a new key goes to the end, as in Python.
unfoldable pub put : String → String → List (String × String) → List (String × String)
put k v [] = (k, v) ∷ []
put k v ((j, w) ∷ m) = if same_text j k then (k, v) ∷ m else (j, w) ∷ put k v m

-- `{**d, **e}`.
unfoldable pub merge : List (String × String) → List (String × String) → List (String × String)
unfolding put
merge d [] = d
merge d ((k, v) ∷ e) = merge (put k v d) e
