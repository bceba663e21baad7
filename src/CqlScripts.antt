-- ===== src/CqlScripts.antt =====
-- controllers/cql_configmaps.go: the parser of CQL scripts. A script is the list of its bytes, which
-- are the codes of ASCII characters.
pub mod Execution
pub mod Lines
pub mod Statements
pub mod Checksums
use mr_cassop.Prelude.{
  ℕ, Bool, true, false, not, ◌&&◌, ◌||◌, List, [], ◌∷◌, ◌++◌, map, eqb, ltb, leb, length, any,
  is_empty, if◌then◌else◌,
}

abbrev pub Text : Type 0
Text = List ℕ

abbrev pub newline : ℕ
newline = 10

abbrev pub semicolon : ℕ
semicolon = 59

abbrev pub carriage_return : ℕ
carriage_return = 13

abbrev pub dash : ℕ
dash = 45

-- `unicode.IsSpace` of an ASCII character
unfoldable pub is_space : ℕ → Bool
is_space c = eqb c 32 || (leb 9 c && leb c 13)

-- `strings.TrimLeftFunc`
unfoldable pub trim_left : (ℕ → Bool) → Text → Text
trim_left p [] = []
trim_left p (c ∷ t) = if p c then trim_left p t else c ∷ t

unfoldable pub trim_right : Text → Text
unfolding is_space
trim_right [] = []
trim_right (c ∷ t) = let rest = trim_right t in if is_empty rest && is_space c then [] else c ∷ rest

-- `strings.TrimSpace`
abbrev pub trim_space : Text → Text
trim_space t = trim_right (trim_left is_space t)

-- `strings.HasPrefix(line, "--")`
unfoldable pub is_comment : Text → Bool
is_comment [] = false
is_comment (c ∷ []) = false
is_comment (c ∷ d ∷ t) = eqb c dash && eqb d dash

onto_first : ℕ → List Text → List Text
onto_first c [] = (c ∷ []) ∷ []
onto_first c (l ∷ ls) = (c ∷ l) ∷ ls

-- `strings.Split` at one character
unfoldable pub split_on : ℕ → Text → List Text
unfolding onto_first
split_on s [] = [] ∷ []
split_on s (c ∷ t) = let rest = split_on s t in if eqb c s then [] ∷ rest else onto_first c rest

unfoldable pub drop_return : Text → Text
drop_return [] = []
drop_return (c ∷ t) = if is_empty t && eqb c carriage_return then [] else c ∷ drop_return t

-- `bufio.Scanner` of lines: it stops before a line that does not fit its buffer. Behind the last
-- newline there is no line.
unfoldable pub scan_lines : List Text → List Text
unfolding drop_return
scan_lines [] = []
scan_lines (l ∷ ls) =
    if (is_empty ls && is_empty l) || leb 65536 (length l)
    then []
    else drop_return l ∷ scan_lines ls

abbrev pub ends_with : ℕ → Text → Bool
ends_with c [] = false
ends_with c (d ∷ []) = eqb d c
ends_with c (d ∷ e ∷ t) = ends_with c (e ∷ t)

-- `query + "\n" + line`, or the line alone
unfoldable pub continued : Text → Text → Text
continued query line = if is_empty query then line else query ++ newline ∷ line

-- The pieces of a line after the first: complete queries, and the last one.
unfoldable pub end_of_line : Bool → Text → List Text → List Text × Text
unfolding is_space trim_left trim_right
end_of_line complete piece [] =
    if complete then (trim_space piece ∷ [], []) else ([], trim_left (λ c. eqb c 32) piece)
end_of_line complete piece (next ∷ more) =
    let (queries, query) = end_of_line complete next more in (trim_space piece ∷ queries, query)

-- A line with semicolons, from its pieces that are not empty.
unfoldable pub add_pieces : Bool → List Text → Text × List Text → Text × List Text
unfolding continued end_of_line
add_pieces complete [] st = st
add_pieces complete (piece ∷ []) (query, queries) = ([], queries ++ continued query piece ∷ [])
add_pieces complete (piece ∷ next ∷ more) (query, queries) =
    let (complete_queries, begun) = end_of_line complete next more in
    (begun, queries ++ continued query piece ∷ complete_queries)

abbrev pub not_blank : List Text → List Text
not_blank [] = []
not_blank (l ∷ ls) = let rest = not_blank ls in if is_empty (trim_space l) then rest else l ∷ rest

-- One turn of the loop: the query that was begun, and the queries so far.
unfoldable pub add_line : Text → Text × List Text → Text × List Text
unfolding is_comment trim_left trim_right split_on add_pieces continued is_space
add_line line (query, queries) =
    let trimmed = trim_space line in
    if is_comment trimmed
    then (query, queries)
    else if is_empty trimmed
    then (query, queries)
    else if any (λ c. eqb c semicolon) line
    then add_pieces (ends_with semicolon trimmed) (not_blank (split_on semicolon line))
        (query, queries)
    else (continued query line, queries)

unfoldable pub add_lines : List Text → Text × List Text → Text × List Text
unfolding add_line
add_lines [] st = st
add_lines (line ∷ lines) st = add_lines lines (add_line line st)

-- What is left at the end is a query as well.
unfoldable pub finish : Text × List Text → List Text
unfolding trim_left trim_right is_space
finish (query, queries) =
    let rest = trim_space query in if is_empty rest then queries else queries ++ rest ∷ []

unfoldable pub parse_cql_queries : Text → List Text
unfolding add_lines finish scan_lines split_on
parse_cql_queries script = finish (add_lines (scan_lines (split_on newline script)) ([], []))
