-- ===== src/CqlScripts/Statements.antt =====
-- controllers/cql_configmaps.go: the queries of a script whose statements end with a semicolon at the
-- end of a line.
use mr_cassop.Prelude.{
  true, false, List, [], ◌∷◌, ◌++◌, map, ◌≡◌, refl, sym, ap, ◌∙◌, arith, eqb, any, is_empty, All,
  append-nil, subst,
}
use mathlib.Core.List.{append_assoc}
use mr_cassop.CqlScripts.{
  Text, semicolon, is_space, trim_left, trim_right, trim_space, is_comment, split_on, continued,
  not_blank, add_line, add_lines, add_pieces, finish, parse_cql_queries,
}
use mr_cassop.CqlScripts.Lines.{text_of, IsLine, scan_lines-text_of}

-- A line of a statement: not blank, not a comment, and without a semicolon.
abbrev pub IsPlain : Text → Type 0
IsPlain l =
    (any (λ c. eqb c semicolon) l ≡ false)
    × (is_empty (trim_space l) ≡ false)
    × (is_comment (trim_left is_space l) ≡ false)

-- A statement is its lines before the last, and the last one.
abbrev pub Statement : Type 0
Statement = List Text × Text

abbrev pub IsStatement : Statement → Type 0
IsStatement (lines, last) = All IsPlain lines × IsPlain last

abbrev pub with_semicolon : Text → Text
with_semicolon l = l ++ semicolon ∷ []

-- The lines that a statement stands on.
abbrev pub print : List Statement → List Text
print [] = []
print ((lines, last) ∷ rest) = lines ++ with_semicolon last ∷ print rest

-- Its lines, joined, after what was begun.
abbrev pub joined : Text → List Text → Text → Text
joined query [] last = continued query last
joined query (l ∷ lines) last = joined (continued query l) lines last

trim_left-append :
    (l : Text) → trim_left is_space (with_semicolon l) ≡ with_semicolon (trim_left is_space l)
unfolding trim_left is_space
trim_left-append [] = refl
trim_left-append (c ∷ l) = ground (arith, trim_left-append l)

trim_right-append : (l : Text) → trim_right (with_semicolon l) ≡ with_semicolon l
unfolding trim_right is_space
trim_right-append [] = refl
trim_right-append (c ∷ []) = ground (arith)
trim_right-append (c ∷ d ∷ l) = ground (arith, trim_right-append (d ∷ l))

split_on-plain :
    (l : Text)
    → any (λ c. eqb c semicolon) l ≡ false
    → split_on semicolon (with_semicolon l) ≡ l ∷ [] ∷ []
unfolding split_on
split_on-plain [] h = refl
split_on-plain (c ∷ l) h = ground (arith, split_on-plain l)

any-semicolon : (l : Text) → any (λ c. eqb c semicolon) (with_semicolon l) ≡ true
any-semicolon [] = refl
any-semicolon (c ∷ l) = ground (arith, any-semicolon l)

is_comment-append : (l : Text) → is_comment l ≡ false → is_comment (with_semicolon l) ≡ false
unfolding is_comment
is_comment-append [] h = refl
is_comment-append (c ∷ []) h = ground arith
is_comment-append (c ∷ d ∷ l) h = h

is_comment-trim_right : (l : Text) → is_comment l ≡ false → is_comment (trim_right l) ≡ false
unfolding is_comment trim_right
is_comment-trim_right [] h = refl
is_comment-trim_right (c ∷ []) h = ground arith
is_comment-trim_right (c ∷ d ∷ l) h = ground arith

add_line-plain :
    (l : Text) (query : Text) (queries : List Text)
    → IsPlain l
    → add_line l (query, queries) ≡ (continued query l, queries)
unfolding add_line
add_line-plain l query queries (s, n, c) =
    ground (arith, is_comment-trim_right (trim_left is_space l) c)

trim_space-append :
    (l : Text) → trim_space (with_semicolon l) ≡ with_semicolon (trim_left is_space l)
trim_space-append l = ap trim_right (trim_left-append l) ∙ trim_right-append (trim_left is_space l)

is_empty-append : (l : Text) → is_empty (with_semicolon l) ≡ false
is_empty-append [] = refl
is_empty-append (c ∷ l) = refl

not_blank_one : (l : Text) → is_empty (trim_space l) ≡ false → not_blank (l ∷ [] ∷ []) ≡ l ∷ []
unfolding trim_left trim_right
not_blank_one l h = ground arith

add_line-end :
    (l : Text) (query : Text) (queries : List Text)
    → IsPlain l
    → add_line (with_semicolon l) (query, queries) ≡ ([], queries ++ continued query l ∷ [])
unfolding add_line add_pieces
add_line-end l query queries (s, n, c) =
    rw (trim_space-append l, split_on-plain l s, not_blank_one l n)
      (ground (
        arith,
        is_comment-append (trim_left is_space l) c,
        is_empty-append (trim_left is_space l),
        any-semicolon l,
      ))

add_lines-statement :
    (lines : List Text) (last query : Text) (queries rest : List Text)
    → All IsPlain lines
    → IsPlain last
    → add_lines (lines ++ with_semicolon last ∷ rest) (query, queries)
      ≡ add_lines rest ([], queries ++ joined query lines last ∷ [])
unfolding add_lines
add_lines-statement [] last query queries rest _ p =
    ap (add_lines rest) (add_line-end last query queries p)
add_lines-statement (l ∷ lines) last query queries rest (h, k) p =
    ap (add_lines (lines ++ with_semicolon last ∷ rest)) (add_line-plain l query queries h)
    ∙ add_lines-statement lines last (continued query l) queries rest k p

add_lines-print_from :
    (statements : List Statement) (queries : List Text)
    → All IsStatement statements
    → add_lines (print statements) ([], queries)
      ≡ ([], queries ++ map (λ s. joined [] s.0 s.1) statements)
unfolding add_lines
add_lines-print_from [] queries _ = ap (λ q. ([], q)) (sym (append-nil queries))
add_lines-print_from ((lines, last) ∷ rest) queries ((h, p), k) =
    add_lines-statement lines last [] queries (print rest) h p
    ∙ add_lines-print_from rest (queries ++ joined [] lines last ∷ []) k
    ∙ ap (λ q. ([], q))
        (append_assoc queries (joined [] lines last ∷ []) (map (λ s. joined [] s.0 s.1) rest))

finish-print :
    (statements : List Statement)
    → All IsStatement statements
    → finish (add_lines (print statements) ([], [])) ≡ map (λ s. joined [] s.0 s.1) statements
unfolding finish trim_left trim_right
finish-print statements h = ap finish (add_lines-print_from statements [] h)

-- A script in which every statement ends with a semicolon at the end of a line, whose lines are
-- neither blank nor comments and have no other semicolon, and are lines of a text, each of fewer than
-- 64 KB and without a carriage return at its end, is parsed into its statements, in their order, each
-- with its lines joined by newlines and without the semicolon.
pub parse_cql_queries-print :
    (statements : List Statement)
    → All IsStatement statements
    → All IsLine (print statements)
    → parse_cql_queries (text_of (print statements)) ≡ map (λ s. joined [] s.0 s.1) statements
unfolding parse_cql_queries
parse_cql_queries-print statements h k =
    ap (λ ls. finish (add_lines ls ([], []))) (scan_lines-text_of (print statements) k)
    ∙ finish-print statements h

add_lines-semicolon :
    (before behind : List Text) (st : Text × List Text)
    → add_lines (before ++ (semicolon ∷ []) ∷ behind) st ≡ add_lines (before ++ behind) st
unfolding add_lines add_line trim_left trim_right is_comment split_on add_pieces
add_lines-semicolon [] behind (query, queries) = refl
add_lines-semicolon (l ∷ before) behind st = add_lines-semicolon before behind (add_line l st)

print-append : (ss ts : List Statement) → print (ss ++ ts) ≡ print ss ++ print ts
print-append [] ts = refl
print-append ((lines, last) ∷ ss) ts =
    ap (λ ls. lines ++ with_semicolon last ∷ ls) (print-append ss ts)
    ∙ sym (append_assoc lines (with_semicolon last ∷ print ss) (print ts))

print-split :
    (before rest : List Statement) (lines more : List Text) (last : Text)
    → print (before ++ (lines ++ more, last) ∷ rest)
      ≡ (print before ++ lines) ++ (more ++ with_semicolon last ∷ print rest)
print-split before rest lines more last =
    print-append before ((lines ++ more, last) ∷ rest)
    ∙ ap (◌++◌ (print before)) (append_assoc lines more (with_semicolon last ∷ print rest))
    ∙ sym (append_assoc (print before) lines (more ++ with_semicolon last ∷ print rest))

All-between {ℓ κ} :
    {A : Type ℓ} (P : A → Type κ) (xs ys : List A) (x : A)
    → All P (xs ++ ys)
    → P x
    → All P (xs ++ x ∷ ys)
All-between P [] ys x h p = (p, h)
All-between P (y ∷ xs) ys x (q, h) p = (q, All-between P xs ys x h p)

-- A semicolon that stands alone on a line does not end the statement before it, whichever statement
-- of a script that is: its lines and those of the statement behind it are parsed into one query. The
-- other statements end with a semicolon at the end of a line, and no line but these has a semicolon,
-- is blank or a comment, has 64 KB or more, or has a carriage return at its end.
pub parse_cql_queries-semicolon_alone :
    (before rest : List Statement) (lines more : List Text) (last : Text)
    → All IsStatement (before ++ (lines ++ more, last) ∷ rest)
    → All IsLine (print (before ++ (lines ++ more, last) ∷ rest))
    → parse_cql_queries (
        text_of (
          (print before ++ lines) ++ (semicolon ∷ []) ∷ (more ++ with_semicolon last ∷ print rest)))
      ≡ map (λ s. joined [] s.0 s.1) (before ++ (lines ++ more, last) ∷ rest)
unfolding parse_cql_queries
parse_cql_queries-semicolon_alone before rest lines more last h k =
    let start = print before ++ lines in
    let end = more ++ with_semicolon last ∷ print rest in
    let fits = subst (All IsLine) (print-split before rest lines more last) k in
    ap (λ ls. finish (add_lines ls ([], [])))
      (scan_lines-text_of (start ++ (semicolon ∷ []) ∷ end)
        (All-between IsLine start end (semicolon ∷ []) fits (refl, refl, refl)))
    ∙ ap finish (add_lines-semicolon start end ([], []))
    ∙ ap (λ ls. finish (add_lines ls ([], []))) (sym (print-split before rest lines more last))
    ∙ finish-print (before ++ (lines ++ more, last) ∷ rest) h
