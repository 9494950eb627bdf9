-- ===== src/Platform/Listing.antt =====
-- What `list_session_ids` of data_platform.py returns.
use Prim.Native.String.{String}
use safactory_server.Base.{
  none, some, false, not, ◌&&◌, List, [], ◌∷◌, ◌++◌, same_text, ◌≡◌, Bool-cases, inl, inr, All,
  All-append, HasDistinct, same_text-sym, map, arith,
}
use safactory_server.Json.{Json, null, bool, int, float, text, array, object}
use safactory_server.Text.{is_empty}
use safactory_server.Store.Failure.{ok}
use safactory_server.Outcomes.{◌>>=◌, Gives, Gives-bind, given, wrap-eq-ok}
use safactory_server.Platform.Values.{get}
use safactory_server.Platform.Queries.{Client, landing, legacy, query_landing}
use safactory_server.Platform.Sessions.{
  is_among, add_session, sessions_in, list_of, session_value, find_sessions, list_session_ids,
}

abbrev pub own : String → String
own t = t

pub HasDistinct-append :
    (done : List String) (a : String)
    → HasDistinct own done
    → is_among a done ≡ false
    → HasDistinct own (done ++ a ∷ [])
unfolding is_among
HasDistinct-append [] a h e = (tt, tt)
HasDistinct-append (x ∷ xs) a h e = (
  All-append (λ y. same_text y x ≡ false) xs (a ∷ []) h.0 (same_text-sym x a (ground (arith)), tt),
  HasDistinct-append xs a h.1 (ground (arith)),
)

-- Ids without repetition, and none of them empty.
pub record IsListing (ts : List String) : Type 0 where
  pub distinct : HasDistinct own ts
  pub filled : All (λ t. is_empty t ≡ false) ts

add_session-IsListing : (v : Json) (ts : List String) → IsListing ts → IsListing (add_session v ts)
unfolding add_session
add_session-IsListing (text t) ts h = elim (Bool-cases (not (is_empty t) && not (is_among t ts))) [
  | inr known ↦ rw known h
  | inl fresh ↦ rw fresh (record {
    distinct = HasDistinct-append ts t h.distinct (ground (arith));
    filled = All-append (λ u. is_empty u ≡ false) ts (t ∷ []) h.filled (ground (arith), tt);
  })
]
add_session-IsListing null ts h = h
add_session-IsListing (bool b) ts h = h
add_session-IsListing (int n) ts h = h
add_session-IsListing (float t) ts h = h
add_session-IsListing (array xs) ts h = h
add_session-IsListing (object fs) ts h = h

sessions_in-IsListing :
    (vs : List Json) (ts : List String) → IsListing ts → IsListing (sessions_in vs ts)
unfolding sessions_in
sessions_in-IsListing [] ts h = h
sessions_in-IsListing (v ∷ vs) ts h =
    sessions_in-IsListing vs (add_session v ts) (add_session-IsListing v ts h)

from_nothing : (vs : List Json) → IsListing (sessions_in vs [])
from_nothing vs = sessions_in-IsListing vs [] (record { distinct = tt; filled = tt })

find_sessions-Gives :
    (client : Client) (job_id : String) → Gives IsListing (find_sessions client job_id)
unfolding find_sessions
find_sessions-Gives (landing query) job_id =
    Gives-bind IsListing (query_landing query job_id none (some ("session_id" ∷ []))) _
      (λ rows. from_nothing (map (get "session_id") rows))
find_sessions-Gives (legacy list_sessions b c d) job_id =
    Gives-bind IsListing (list_sessions job_id >>= list_of) _
      (λ rows. from_nothing (map session_value rows))

-- For either surface of the client and every answer of it: the ids that `list_session_ids` returns are
-- distinct, and none is empty.
pub list_session_ids-IsListing :
    (client : Client) (job_id : String) (ts : List String)
    → list_session_ids client job_id ≡ ok ts
    → IsListing ts
unfolding list_session_ids
list_session_ids-IsListing client job_id ts h =
    given IsListing (find_sessions client job_id) ts (find_sessions-Gives client job_id)
      (wrap-eq-ok _ (find_sessions client job_id) h)
