-- ===== src/CqlScripts/Lines.antt =====
-- controllers/cql_configmaps.go: the lines that the scanner finds in a text.
use mr_cassop.Prelude.{
  false, List, [], ◌∷◌, ◌++◌, ◌≡◌, refl, ap, ◌∙◌, arith, eqb, leb, length, any, is_empty, All,
}
use mr_cassop.CqlScripts.{
  Text, newline, carriage_return, ends_with, split_on, drop_return, scan_lines,
}

-- The lines, each with a newline behind it.
abbrev pub text_of : List Text → Text
text_of [] = []
text_of (l ∷ ls) = l ++ newline ∷ text_of ls

-- It has no newline, fits the buffer of the scanner, and has no carriage return at its end.
abbrev pub IsLine : Text → Type 0
IsLine l =
    (any (λ c. eqb c newline) l ≡ false)
    × (leb 65536 (length l) ≡ false)
    × (ends_with carriage_return l ≡ false)

split_on-line :
    (l t : Text)
    → any (λ c. eqb c newline) l ≡ false
    → split_on newline (l ++ newline ∷ t) ≡ l ∷ split_on newline t
unfolding split_on
split_on-line [] t h = refl
split_on-line (c ∷ l) t h = ground (arith, split_on-line l t)

split_on-text_of : (ls : List Text) → All IsLine ls → split_on newline (text_of ls) ≡ ls ++ [] ∷ []
unfolding split_on
split_on-text_of [] _ = refl
split_on-text_of (l ∷ ls) ((n, _, _), k) =
    split_on-line l (text_of ls) n ∙ ap (◌∷◌ l) (split_on-text_of ls k)

drop_return_same : (l : Text) → ends_with carriage_return l ≡ false → drop_return l ≡ l
unfolding drop_return
drop_return_same [] h = refl
drop_return_same (c ∷ []) h = ground arith
drop_return_same (c ∷ d ∷ l) h = ap (◌∷◌ c) (drop_return_same (d ∷ l) h)

not_last : (ls : List Text) → is_empty (ls ++ [] ∷ []) ≡ false
not_last [] = refl
not_last (l ∷ ls) = refl

scan_lines-append : (ls : List Text) → All IsLine ls → scan_lines (ls ++ [] ∷ []) ≡ ls
unfolding scan_lines
scan_lines-append [] _ = refl
scan_lines-append (l ∷ ls) ((_, f, r), k) =
    ground (arith, not_last ls, drop_return_same l r, scan_lines-append ls k)

pub scan_lines-text_of :
    (ls : List Text) → All IsLine ls → scan_lines (split_on newline (text_of ls)) ≡ ls
scan_lines-text_of ls k = ap scan_lines (split_on-text_of ls k) ∙ scan_lines-append ls k
