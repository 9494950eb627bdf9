-- ===== src/Platform/Escaping.antt =====
-- What a quoted literal of `_query_landing` in data_platform.py means to an SQL engine.
use Prim.Native.Char.{Char, code}
use Prim.Native.String.append
use Prim.Native.String.{String, ◌++◌ as ◌<>◌}
use safactory_server.Base.{
  Bool, not, ap, ◌∙◌, true, false, ◌==◌, ◌≡◌, refl, Option, none, some, if◌then◌else◌, arith,
  Bool-cases, inl, inr,
}
use safactory_server.Platform.Queries.{escape_sql_literal, session_clause, filter_query}
use safactory_server.Text.{is_empty}

-- A quoted literal of SQL behind its opening quote: a doubled quote stands for one quote, and a
-- single quote ends the literal. The flag says that a quote has been read. The result is the value
-- and the text behind the literal.
abbrev pub Literal : Type 0
Literal = Option (String × String)

abbrev prepend : Char → Literal → Literal
prepend c none = none
prepend c (some (value, rest)) = some (String.◌∷◌ c value, rest)

unfoldable pub read_literal : Bool → String → Literal
read_literal true String.[] = some (String.[], String.[])
read_literal false String.[] = none
read_literal true (String.◌∷◌ c s) =
    let rest = read_literal false s in
    if code c == 39 then prepend c rest else some (String.[], String.◌∷◌ c s)
read_literal false (String.◌∷◌ c s) =
    let literal = read_literal false s in
    let closed = read_literal true s in if code c == 39 then closed else prepend c literal

-- The text does not go on with a quote.
abbrev pub starts_other : String → Bool
starts_other String.[] = true
starts_other (String.◌∷◌ c s) = not (code c == 39)

read_closed :
    (rest : String) → starts_other rest ≡ true → read_literal true rest ≡ some (String.[], rest)
unfolding read_literal
read_closed String.[] h = refl
read_closed (String.◌∷◌ c s) h = ground (arith)

abbrev quote : Char
quote = "'"

-- `cons` and `nil` are the clauses of `++` on texts.
append_cons : (c : Char) (s t : String) → (String.◌∷◌ c s) <> t ≡ String.◌∷◌ c (s <> t)
append_cons c s t = append.cons c s t

append_nil : (t : String) → String.[] <> t ≡ t
append_nil t = append.nil t

quoted_rest : (rest : String) → "'" <> rest ≡ String.◌∷◌ quote rest
quoted_rest rest = append_cons quote String.[] rest ∙ ap (String.◌∷◌ quote) (append_nil rest)

read_end :
    (rest : String)
    → starts_other rest ≡ true
    → read_literal false ("'" <> rest) ≡ some (String.[], rest)
unfolding read_literal
read_end rest h = ap (read_literal false) (quoted_rest rest) ∙ read_closed rest h

read_quote :
    (c : Char) (s : String)
    → (code c == 39) ≡ true
    → read_literal false (String.◌∷◌ c (String.◌∷◌ c s)) ≡ prepend c (read_literal false s)
unfolding read_literal
read_quote c s h = rw h refl

read_other :
    (c : Char) (s : String)
    → (code c == 39) ≡ false
    → read_literal false (String.◌∷◌ c s) ≡ prepend c (read_literal false s)
unfolding read_literal
read_other c s h = rw h refl

-- For every value and every text behind the literal that does not start with a quote: an SQL engine
-- reads the escaped value between quotes as that value, and goes on with that text.
pub read_literal-escape_sql_literal :
    (value rest : String)
    → starts_other rest ≡ true
    → read_literal false (escape_sql_literal value <> ("'" <> rest)) ≡ some (value, rest)
unfolding escape_sql_literal
read_literal-escape_sql_literal String.[] rest h =
    ap (read_literal false) (append_nil ("'" <> rest)) ∙ read_end rest h
read_literal-escape_sql_literal (String.◌∷◌ c s) rest h =
    let tail = "'" <> rest in
    let e = escape_sql_literal s in
    elim (Bool-cases (code c == 39)) [
      | inl quoted ↦ rw quoted (
          ap (read_literal false)
            (append_cons c (String.◌∷◌ c e) tail ∙ ap (String.◌∷◌ c) (append_cons c e tail))
          ∙ read_quote c (e <> tail) quoted
          ∙ ap (prepend c) (read_literal-escape_sql_literal s rest h))
      | inr plain ↦ rw plain (
          ap (read_literal false) (append_cons c e tail)
          ∙ read_other c (e <> tail) plain
          ∙ ap (prepend c) (read_literal-escape_sql_literal s rest h))
    ]

-- The text behind a prefix.
unfoldable pub drop_prefix : String → String → Option String
drop_prefix String.[] s = some s
drop_prefix (String.◌∷◌ c p) String.[] = none
drop_prefix (String.◌∷◌ c p) (String.◌∷◌ d s) =
    let rest = drop_prefix p s in if code c == code d then rest else none

drop_prefix-append : (p s : String) → drop_prefix p (p <> s) ≡ some s
unfolding drop_prefix
drop_prefix-append String.[] s = ap some (append_nil s)
drop_prefix-append (String.◌∷◌ c p) s =
    ap (drop_prefix (String.◌∷◌ c p)) (append_cons c p s) ∙ ground (arith, drop_prefix-append p s)

-- What an SQL engine reads in a filter on a job and perhaps a session.
abbrev pub Filter : Type 0
Filter = String × Option String

abbrev whole_session : String → Literal → Option Filter
whole_session job_id none = none
whole_session job_id (some (session_id, rest)) =
    if is_empty rest then some (job_id, some session_id) else none

abbrev read_session : String → Option String → Option Filter
read_session job_id none = none
read_session job_id (some s) = whole_session job_id (read_literal false s)

abbrev read_clauses : Literal → Option Filter
read_clauses none = none
read_clauses (some (job_id, rest)) =
    if is_empty rest
    then some (job_id, none)
    else read_session job_id (drop_prefix " AND session_id = '" rest)

abbrev read_job : Option String → Option Filter
read_job none = none
read_job (some s) = read_clauses (read_literal false s)

unfoldable pub read_filter : String → Option Filter
unfolding drop_prefix read_literal
read_filter s = read_job (drop_prefix "job_id = '" s)

and_clause : (t : String) → " AND session_id = '" <> t ≡ String.◌∷◌ " " ("AND session_id = '" <> t)
and_clause t = append_cons " " "AND session_id = '" t

clause_other : (o : Option String) → starts_other (session_clause o) ≡ true
unfolding session_clause
clause_other none = refl
clause_other (some s) = ap starts_other (and_clause (escape_sql_literal s <> "'"))

clause_some : (s : String) → is_empty (session_clause (some s)) ≡ false
unfolding session_clause
clause_some s = ap is_empty (and_clause (escape_sql_literal s <> "'"))

read_nonempty :
    (job_id rest : String)
    → is_empty rest ≡ false
    → read_clauses (some (job_id, rest))
      ≡ read_session job_id (drop_prefix " AND session_id = '" rest)
read_nonempty job_id rest h = rw h refl

read_clauses_lem :
    (job_id : String) (o : Option String)
    → read_clauses (some (job_id, session_clause o)) ≡ some (job_id, o)
unfolding session_clause
read_clauses_lem job_id none = refl
read_clauses_lem job_id (some s) =
    read_nonempty job_id (session_clause (some s)) (clause_some s)
    ∙ ap (read_session job_id)
        (drop_prefix-append " AND session_id = '" (escape_sql_literal s <> "'"))
    ∙ ap (whole_session job_id) (read_literal-escape_sql_literal s "" refl)

-- For every job and every session, or none: an SQL engine reads in the filter of the query that job
-- and that session and nothing else, whatever quotes the two contain.
pub read_filter-filter_query :
    (job_id : String) (session_id : Option String)
    → read_filter (filter_query job_id session_id) ≡ some (job_id, session_id)
unfolding read_filter filter_query
read_filter-filter_query job_id session_id =
    ap read_job (
      drop_prefix-append "job_id = '"
        (escape_sql_literal job_id <> ("'" <> session_clause session_id)))
    ∙ ap read_clauses (
        read_literal-escape_sql_literal job_id (session_clause session_id)
          (clause_other session_id))
    ∙ read_clauses_lem job_id session_id
