-- ===== src/Auth/Raises.antt =====
-- When `authenticate` of src/server/auth/authenticator.py raises.
use Prim.Native.Char.{Char}
use Prim.Native.String.{String}
use safactory_server.Base.{
  Bool, true, false, List, [], ◌∷◌, none, same_text, ◌≡◌, refl, sym, ◌∙◌, inl, inr, Bool-cases,
}
use safactory_server.Store.Failure.{Failure, type_error, ok, raised}
use safactory_server.Catalog.{are_unique}
use safactory_server.Auth.{
  TrustedUser, is_ascii, is_valid_config, Credentials, from_config, words, compare_digest,
  search_key, of_parts, authenticate,
}
use safactory_server.Auth.Lookup.{
  HasAscii, keys, find_user, search_unique, valid_ascii, valid_parts,
}

-- What a scan that raises says of the key.
search_raised :
    (key : String) (users : List TrustedUser) (e : Failure)
    → HasAscii users
    → are_unique (keys users) ≡ true
    → search_key key (from_config users) none ≡ raised e
    → (e ≡ type_error) × (is_ascii key ≡ false)
unfolding search_key compare_digest
search_raised key [] e a u h = cc h
search_raised key (user ∷ users) e a u h = elim (Bool-cases (is_ascii key)) [
  | inr foreign ↦
      let f : raised type_error ≡ raised e = sym (rw foreign refl) ∙ h in (cc f, foreign)
  | inl ascii ↦
      let f : ok (find_user key (user ∷ users)) ≡ raised e =
        sym (search_unique key ascii (user ∷ users) a u) ∙ h in
      cc f
]

parts_raised :
    (lower : String → String) (credentials : Credentials) (parts : List String) (e : Failure)
    → of_parts lower credentials parts ≡ raised e
    → (scheme : String) × ((key : String) × ((parts ≡ scheme ∷ key ∷ [])
          × ((same_text (lower scheme) "bearer" ≡ true)
              × (search_key key credentials none ≡ raised e))))
unfolding of_parts
parts_raised lower credentials [] e h = cc h
parts_raised lower credentials (scheme ∷ []) e h = cc h
parts_raised lower credentials (scheme ∷ other ∷ more ∷ parts) e h = cc h
parts_raised lower credentials (scheme ∷ key ∷ []) e h =
    elim (Bool-cases (same_text (lower scheme) "bearer")) [
      | inr wrong ↦ let f : ok none ≡ raised e = sym (rw wrong refl) ∙ h in cc f
      | inl bearer ↦
          let f : search_key key credentials none ≡ raised e = sym (rw bearer refl) ∙ h in
          (scheme, (key, (refl, (bearer, f))))
    ]

-- For every valid configuration and any headers: if `authenticate` raises, it is a TypeError, and there
-- was exactly one header, of exactly two words, the first of which reads as `bearer` and the second of
-- which is no ASCII text. So every other request is let in or refused.
pub authenticate_raised :
    (is_space : Char → Bool) (lower : String → String) (users : List TrustedUser)
    (headers : List String) (e : Failure)
    → is_valid_config is_space users ≡ true
    → authenticate is_space lower (from_config users) headers ≡ raised e
    → (e ≡ type_error)
      × ((header : String) × ((scheme : String) × ((key : String) × ((headers ≡ header ∷ [])
                × ((words is_space header ≡ scheme ∷ key ∷ [])
                    × ((same_text (lower scheme) "bearer" ≡ true) × (is_ascii key ≡ false)))))))
unfolding authenticate
authenticate_raised is_space lower users [] e valid h = cc h
authenticate_raised is_space lower users (header ∷ other ∷ headers) e valid h = cc h
authenticate_raised is_space lower users (header ∷ []) e valid h =
    let (each, unique) = valid_parts is_space users valid in
    let (scheme, (key, (parts, (bearer, scan)))) =
      parts_raised lower (from_config users) (words is_space header) e h in
    let (named, foreign) =
      search_raised key users e (valid_ascii is_space users each) unique scan in
    (named, (header, (scheme, (key, (refl, (parts, (bearer, foreign)))))))
