-- ===== src/Auth/Lookup.antt =====
-- Whom `authenticate` of src/server/auth/authenticator.py lets in.
use Prim.Native.Char.{Char}
use Prim.Native.String.{String}
use safactory_server.Base.{
  Bool, true, false, ◌&&◌, Option, none, some, List, [], ◌∷◌, map, all, same_text, if◌then◌else◌,
  ◌≡◌, refl, sym, ◌∙◌, subst, ◌⊎◌, inl, inr, Bool-cases, Any, arith,
}
use text.Mathlib.TextEquality.{eq_iff}
use safactory_server.Store.Failure.{type_error, ok, raised}
use safactory_server.Outcomes.{>>=-eq-ok}
use safactory_server.Catalog.{are_unique}
use safactory_server.Platform.Sessions.{is_among}
use safactory_server.Auth.{
  TrustedUser, is_username, is_ascii, is_api_key, is_valid_config, Credentials, from_config, words,
  compare_digest, search_key, of_parts, authenticate,
}

-- The first user with a key.
unfoldable pub find_user : String → List TrustedUser → Option String
find_user key [] = none
find_user key (u ∷ users) =
    let rest = find_user key users in if same_text u.api_key key then some u.username else rest

-- All keys are ASCII.
abbrev pub HasAscii : List TrustedUser → Type 0
HasAscii [] = Unit
HasAscii (u ∷ users) = (is_ascii u.api_key ≡ true) × HasAscii users

abbrev pub keys : List TrustedUser → List String
keys users = map (λ u. u.api_key) users

module _ (key : String) (ascii : is_ascii key ≡ true) where
  search_absent :
      (users : List TrustedUser) (found : Option String)
      → HasAscii users
      → is_among key (keys users) ≡ false
      → search_key key (from_config users) found ≡ ok found
  unfolding search_key compare_digest is_among
  search_absent [] found a h = refl
  search_absent (u ∷ users) found a h = elim (Bool-cases (same_text u.api_key key)) [
    | inl same ↦ ground (arith)
    | inr other ↦ rw (ascii, a.0, other) (search_absent users found a.1 (ground (arith)))
  ]

  pub search_unique :
      (users : List TrustedUser)
      → HasAscii users
      → are_unique (keys users) ≡ true
      → search_key key (from_config users) none ≡ ok (find_user key users)
  unfolding search_key compare_digest find_user are_unique
  search_unique [] a h = refl
  search_unique (u ∷ users) a h = elim (Bool-cases (same_text u.api_key key)) [
    | inl same ↦
        let e : u.api_key ≡ key = (eq_iff u.api_key key).0 same in
        let absent : is_among u.api_key (keys users) ≡ false = ground (arith) in
        rw (ascii, a.0, same)
          (search_absent users (some u.username) a.1
            (subst (λ k. is_among k (keys users) ≡ false) e absent))
    | inr other ↦ rw (ascii, a.0, other) (search_unique users a.1 (ground (arith)))
  ]

pub valid_ascii :
    (is_space : Char → Bool) (users : List TrustedUser)
    → all (λ u. is_username u.username && is_api_key is_space u.api_key) users ≡ true
    → HasAscii users
unfolding all is_api_key
valid_ascii is_space [] h = tt
valid_ascii is_space (u ∷ users) h = (ground (arith), valid_ascii is_space users (ground (arith)))

pub valid_parts :
    (is_space : Char → Bool) (users : List TrustedUser)
    → is_valid_config is_space users ≡ true
    → (all (λ u. is_username u.username && is_api_key is_space u.api_key) users ≡ true)
      × (are_unique (keys users) ≡ true)
unfolding is_valid_config
valid_parts is_space users h = (ground (arith), ground (arith))

-- For every valid configuration, every one header that splits into a scheme that reads as `bearer` and an
-- ASCII key: the scan of all credentials gives the first user with that key, and nobody if there is
-- none.
pub authenticate-find_user :
    (is_space : Char → Bool) (lower : String → String) (users : List TrustedUser)
    (header scheme key : String)
    → is_valid_config is_space users ≡ true
    → words is_space header ≡ scheme ∷ key ∷ []
    → same_text (lower scheme) "bearer" ≡ true
    → is_ascii key ≡ true
    → authenticate is_space lower (from_config users) (header ∷ []) ≡ ok (find_user key users)
unfolding authenticate of_parts
authenticate-find_user is_space lower users header scheme key valid parts bearer ascii =
    let (each, unique) = valid_parts is_space users valid in
    rw (parts, bearer) (search_unique key ascii users (valid_ascii is_space users each) unique)

compared :
    (key trusted : String) (b : Bool)
    → compare_digest key trusted ≡ ok b
    → same_text trusted key ≡ b
unfolding compare_digest
compared key trusted b h = elim (Bool-cases (is_ascii key && is_ascii trusted)) [
  | inl both ↦ let e : ok (same_text trusted key) ≡ ok b = sym (rw both refl) ∙ h in cc e
  | inr not_both ↦ let e : raised type_error ≡ ok b = sym (rw not_both refl) ∙ h in cc e
]

-- A name that stands beside a key.
abbrev pub Holds : String → String → Credentials → Type 0
Holds name key credentials = Any (λ c. (c.0 ≡ name) × (c.1 ≡ key)) credentials

search_sound :
    (key name : String) (credentials : Credentials) (found : Option String)
    → search_key key credentials found ≡ ok (some name)
    → (found ≡ some name) ⊎ Holds name key credentials
unfolding search_key
search_sound key name [] found h = let e : found ≡ some name = cc h in inl e
search_sound key name ((n, k) ∷ credentials) found h =
    let (same, (c, r)) = >>=-eq-ok (compare_digest key k) _ h in
    let e : same_text k key ≡ same = compared key k same c in
    elim (search_sound key name credentials _ r) [
      | inr later ↦ inr (inr later)
      | inl here ↦ elim (Bool-cases same) [
        | inl matches ↦
            let f : some n ≡ some name = sym (rw matches refl) ∙ here in
            let g : n ≡ name = cc f in inr (inl (g, (eq_iff k key).0 (e ∙ matches)))
        | inr differs ↦ let f : found ≡ some name = sym (rw differs refl) ∙ here in inl f
      ]
    ]

parts_sound :
    (lower : String → String) (credentials : Credentials) (name : String) (parts : List String)
    → of_parts lower credentials parts ≡ ok (some name)
    → (scheme : String) × ((key : String) × ((parts ≡ scheme ∷ key ∷ [])
          × Holds name key credentials))
unfolding of_parts
parts_sound lower credentials name [] h = cc h
parts_sound lower credentials name (scheme ∷ []) h = cc h
parts_sound lower credentials name (scheme ∷ other ∷ more ∷ parts) h = cc h
parts_sound lower credentials name (scheme ∷ key ∷ []) h =
    elim (Bool-cases (same_text (lower scheme) "bearer")) [
      | inr wrong ↦ let e : ok none ≡ ok (some name) = sym (rw wrong refl) ∙ h in cc e
      | inl bearer ↦
          let e : search_key key credentials none ≡ ok (some name) = sym (rw bearer refl) ∙ h in
          elim (search_sound key name credentials none e) [
            | inl none_named ↦ cc none_named
            | inr held ↦ (scheme, (key, (refl, held)))
          ]
    ]

-- For any credentials and any headers: whom `authenticate` lets in has sent exactly one header, of
-- exactly two words, and the second is a key that stands beside that name.
pub authenticate_sound :
    (is_space : Char → Bool) (lower : String → String) (credentials : Credentials)
    (headers : List String) (name : String)
    → authenticate is_space lower credentials headers ≡ ok (some name)
    → (header : String) × ((scheme : String) × ((key : String) × ((headers ≡ header ∷ [])
            × ((words is_space header ≡ scheme ∷ key ∷ []) × Holds name key credentials))))
unfolding authenticate
authenticate_sound is_space lower credentials [] name h = cc h
authenticate_sound is_space lower credentials (header ∷ other ∷ headers) name h = cc h
authenticate_sound is_space lower credentials (header ∷ []) name h =
    let (scheme, (key, (parts, held))) =
      parts_sound lower credentials name (words is_space header) h in
    (header, (scheme, (key, (refl, (parts, held)))))
