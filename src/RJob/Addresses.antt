-- ===== src/RJob/Addresses.antt =====
-- `_extract_rjob_ips` of rjob.py on the JSON values of an RJob: the addresses that its status names.
use Prim.Native.String.{String}
use safactory_server.Base.{
  ℕ, suc, ◌-◌, Bool, false, ◌&&◌, ◌||◌, leb, Option, none, some, List, [], ◌∷◌, ◌++◌, map, order_by,
  same_text, if◌then◌else◌,
}
use safactory_server.Json.{
  Json, null, bool, int, float, text, array, object, Items, nil, cons, Fields, end, field,
}
use safactory_server.Platform.Sessions.{is_among}

-- What `ipaddress.ip_address` returns: the address as text and its flags.
pub record AddressFacts : Type 0 where
  pub address : String
  pub is_loopback : Bool
  pub is_link_local : Bool
  pub is_multicast : Bool
  pub is_unspecified : Bool

-- `find_candidates` is `re.findall` with the pattern of four groups of digits, `normalized` is
-- `re.sub(r"[^a-z0-9]", "", part.lower())`, and `contains` is `in` on texts; an index of a list is a text.
pub record AddressLibrary : Type 0 where
  pub find_candidates : String → List String
  pub ip_address : String → Option AddressFacts
  pub normalized : String → String
  pub contains : String → String → Bool
  pub index_text : ℕ → String

pub record Match : Type 0 where
  pub priority : ℕ
  pub address : String

abbrev pub is_excluded : AddressFacts → Bool
is_excluded a = a.is_loopback || a.is_link_local || a.is_multicast || a.is_unspecified

unfoldable pub is_status_path : AddressLibrary → List String → Bool
is_status_path lib [] = false
is_status_path lib (part ∷ path) =
    lib.contains "status" (lib.normalized part)
    || lib.contains "network" (lib.normalized part)
    || is_status_path lib path

-- The priority of a key below a path.
unfoldable pub priority_of : AddressLibrary → String → List String → Option ℕ
unfolding is_status_path
priority_of lib key path =
    if same_text key "podip"
      || same_text key "containerip"
      || same_text key "privateip"
      || same_text key "ipaddress"
    then some 100
    else if same_text key "ip"
    then some 90
    else if same_text key "hostip" || same_text key "nodeip"
    then some 80
    else if is_status_path lib path
        && (same_text key "address" || same_text key "endpoint" || same_text key "host")
    then some 50
    else none

-- The same for a path whose last part comes first.
unfoldable pub path_priority : AddressLibrary → List String → Option ℕ
unfolding priority_of
path_priority lib [] = priority_of lib "" []
path_priority lib (part ∷ path) = priority_of lib (lib.normalized part) path

unfoldable pub match_of : Option AddressFacts → Option ℕ → List Match
match_of none priority = []
match_of (some a) none = []
match_of (some a) (some priority) =
    if is_excluded a then [] else record { priority = priority; address = a.address } ∷ []

-- `add`.
unfoldable pub matches_in : AddressLibrary → List String → List String → List Match
unfolding match_of path_priority
matches_in lib path [] = []
matches_in lib path (candidate ∷ candidates) =
    match_of (lib.ip_address candidate) (path_priority lib path) ++ matches_in lib path candidates

-- `visit`, for a path whose last part comes first.
unfoldable mutual
  pub visit : AddressLibrary → List String → ℕ → Json → List Match
  visit lib path depth null = []
  visit lib path depth (bool b) = []
  visit lib path depth (int n) = []
  visit lib path depth (float t) = []
  visit lib path depth (text t) =
      if leb 13 depth then [] else matches_in lib path (lib.find_candidates t)
  visit lib path depth (array xs) =
      let found = visit_items lib path (suc depth) 0 xs in if leb 13 depth then [] else found
  visit lib path depth (object fs) =
      let found = visit_fields lib path (suc depth) fs in if leb 13 depth then [] else found

  pub visit_items : AddressLibrary → List String → ℕ → ℕ → Items → List Match
  visit_items lib path depth n nil = []
  visit_items lib path depth n (cons x xs) =
      visit lib (lib.index_text n ∷ path) depth x ++ visit_items lib path depth (suc n) xs

  pub visit_fields : AddressLibrary → List String → ℕ → Fields → List Match
  visit_fields lib path depth end = []
  visit_fields lib path depth (field k v fs) =
      visit lib (k ∷ path) depth v ++ visit_fields lib path depth fs

-- `if address not in ordered: ordered.append(address)`, for each address.
unfoldable pub without_repeats : List String → List String → List String
unfolding is_among
without_repeats done [] = done
without_repeats done (a ∷ addresses) =
    without_repeats (if is_among a done then done else done ++ a ∷ []) addresses

-- `_extract_rjob_ips`: by falling priority, and in the order of the visit among equals.
unfoldable pub extract_rjob_ips : AddressLibrary → Json → List String
unfolding visit order_by without_repeats
extract_rjob_ips lib payload =
    without_repeats []
      (map (λ m. m.address) (order_by (λ m. 100 - m.priority) (visit lib [] 0 payload)))
