-- ===== src/RJob/Routable.antt =====
-- The addresses that `_extract_rjob_ips` of rjob.py finds can be routed to, and none repeats.
use Prim.Native.String.{String}
use safactory_server.Base.{
  ℕ, suc, ◌-◌, Bool, false, leb, Option, none, some, List, [], ◌∷◌, ◌++◌, map, order_by,
  if◌then◌else◌, ◌≡◌, refl, Bool-cases, inl, inr, All, All-order_by, All-append, HasDistinct,
}
use safactory_server.Json.{
  Json, null, bool, int, float, text, array, object, Items, nil, cons, Fields, end, field,
}
use safactory_server.Platform.Sessions.{is_among}
use safactory_server.Platform.Listing.{own, HasDistinct-append}
use safactory_server.RJob.Addresses.{
  AddressFacts, AddressLibrary, Match, is_excluded, match_of, path_priority, matches_in, visit,
  visit_items, visit_fields, without_repeats, extract_rjob_ips,
}

-- An address that the library reads, and that is none of the excluded kinds.
pub record IsRoutable (lib : AddressLibrary) (t : String) : Type 0 where
  pub candidate : String
  pub facts : AddressFacts
  pub read : lib.ip_address candidate ≡ some facts
  pub kept : is_excluded facts ≡ false
  pub named : facts.address ≡ t

module _ (lib : AddressLibrary) where
  abbrev Found : Match → Type 0
  Found m = IsRoutable lib m.address

  match_of-All :
      (candidate : String) (o : Option AddressFacts) (p : Option ℕ)
      → lib.ip_address candidate ≡ o
      → All Found (match_of o p)
  unfolding match_of
  match_of-All candidate none p e = tt
  match_of-All candidate (some a) none e = tt
  match_of-All candidate (some a) (some p) e = elim (Bool-cases (is_excluded a)) [
    | inl excluded ↦ rw excluded tt
    | inr routable ↦
        rw routable
          (record { candidate = candidate; facts = a; read = e; kept = routable; named = refl }, tt)
  ]

  matches_in-All : (path candidates : List String) → All Found (matches_in lib path candidates)
  unfolding matches_in
  matches_in-All path [] = tt
  matches_in-All path (c ∷ cs) =
      All-append Found (match_of (lib.ip_address c) (path_priority lib path))
        (matches_in lib path cs) (match_of-All c (lib.ip_address c) (path_priority lib path) refl)
        (matches_in-All path cs)

  All-if : (b : Bool) (ms : List Match) → All Found ms → All Found (if b then [] else ms)
  All-if b ms h = elim (Bool-cases b) [ inl deep ↦ rw deep tt | inr near ↦ rw near h ]

  mutual
    unfolding visit visit_items visit_fields

    visit-All : (path : List String) (depth : ℕ) (j : Json) → All Found (visit lib path depth j)
    visit-All path depth null = tt
    visit-All path depth (bool b) = tt
    visit-All path depth (int n) = tt
    visit-All path depth (float t) = tt
    visit-All path depth (text t) =
        All-if (leb 13 depth) (matches_in lib path (lib.find_candidates t))
          (matches_in-All path (lib.find_candidates t))
    visit-All path depth (array xs) =
        All-if (leb 13 depth) (visit_items lib path (suc depth) 0 xs)
          (visit_items-All path (suc depth) 0 xs)
    visit-All path depth (object fs) =
        All-if (leb 13 depth) (visit_fields lib path (suc depth) fs)
          (visit_fields-All path (suc depth) fs)

    visit_items-All :
        (path : List String) (depth n : ℕ) (xs : Items)
        → All Found (visit_items lib path depth n xs)
    visit_items-All path depth n nil = tt
    visit_items-All path depth n (cons x xs) =
        All-append Found (visit lib (lib.index_text n ∷ path) depth x)
          (visit_items lib path depth (suc n) xs) (visit-All (lib.index_text n ∷ path) depth x)
          (visit_items-All path depth (suc n) xs)

    visit_fields-All :
        (path : List String) (depth : ℕ) (fs : Fields) → All Found (visit_fields lib path depth fs)
    visit_fields-All path depth end = tt
    visit_fields-All path depth (field k v fs) =
        All-append Found (visit lib (k ∷ path) depth v) (visit_fields lib path depth fs)
          (visit-All (k ∷ path) depth v) (visit_fields-All path depth fs)

-- What `without_repeats` gives for addresses that can be routed to.
abbrev Kept : AddressLibrary → List String → Type 0
Kept lib ts = HasDistinct own ts × All (IsRoutable lib) ts

without_repeats-Kept :
    (lib : AddressLibrary) (done addresses : List String)
    → Kept lib done
    → All (IsRoutable lib) addresses
    → Kept lib (without_repeats done addresses)
unfolding without_repeats
without_repeats-Kept lib done [] h g = h
without_repeats-Kept lib done (a ∷ addresses) h g = elim (Bool-cases (is_among a done)) [
  | inl known ↦ rw known (without_repeats-Kept lib done addresses h g.1)
  | inr fresh ↦ rw fresh (
      without_repeats-Kept lib (done ++ a ∷ []) addresses
        (
          HasDistinct-append done a h.0 fresh,
          All-append (IsRoutable lib) done (a ∷ []) h.1 (g.0, tt),
        )
        g.1)
]

All-addresses :
    (lib : AddressLibrary) (ms : List Match)
    → All (λ m. IsRoutable lib m.address) ms
    → All (IsRoutable lib) (map (λ m. m.address) ms)
All-addresses lib [] h = tt
All-addresses lib (m ∷ ms) h = (h.0, All-addresses lib ms h.1)

-- For every JSON value of an RJob: the addresses that are found in it are distinct, and each is the text
-- of what `ip_address` makes of some text and is not loopback, link-local, multicast or unspecified.
pub extract_rjob_ips-IsRoutable :
    (lib : AddressLibrary) (payload : Json)
    → HasDistinct own (extract_rjob_ips lib payload)
      × All (IsRoutable lib) (extract_rjob_ips lib payload)
unfolding extract_rjob_ips
extract_rjob_ips-IsRoutable lib payload =
    let found = visit lib [] 0 payload in
    without_repeats-Kept lib [] _ (tt, tt)
      (All-addresses lib (order_by (λ m. 100 - m.priority) found)
        (All-order_by (Found lib) (λ m. 100 - m.priority) found (visit-All lib [] 0 payload)))
