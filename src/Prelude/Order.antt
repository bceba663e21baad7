-- ===== src/Prelude/Order.antt =====
-- The order of Go's strings and `sort.Strings`. Go compares bytes; on UTF-8 that is the order of
-- the code points. The sorted list is the same for every order of its input.
use Prim.Native.Char.{code}
use Prim.Native.Nat.{ℕ}
use Prim.Native.String.{String}
use mathlib.Core.Path.{◌≡◌, refl, ap, ap₂, ◌∙◌}
use mathlib.Core.Logic.{∥∥₁_elim}
use mathlib.Core.Bool.{Bool, true, false, ◌||◌, ◌&&◌}
use mathlib.Core.HLevel.{hedberg}
use mathlib.Core.List.{List, [], ◌∷◌, Perm, Permᴰ}
use native.Mathlib.Omega.{arith}
use text.Mathlib.TextEquality.{Char-path}
use mr_cassop.Prelude.Lists.{is_empty}
use mr_cassop.Prelude.Tests.{string_eq, ◌==◌, contains, if◌then◌else◌, ltb, eqb}

-- The code points of a text: its bytes, if it is ASCII.
unfoldable pub codes : String → List ℕ
codes String.[] = []
codes (String.◌∷◌ c s) = code c ∷ codes s

unfoldable pub codes_leb : List ℕ → List ℕ → Bool
codes_leb [] t = true
codes_leb (a ∷ s) [] = false
codes_leb (a ∷ s) (b ∷ t) = let rest = codes_leb s t in ltb a b || (eqb a b && rest)

-- `s <= t`
unfoldable pub string_leb : String → String → Bool
string_leb s t = codes_leb (codes s) (codes t)

codes_leb_total : (s t : List ℕ) → codes_leb s t ≡ false → codes_leb t s ≡ true
unfolding codes_leb
codes_leb_total [] t h = ground arith
codes_leb_total (a ∷ s) [] h = refl
codes_leb_total (a ∷ s) (b ∷ t) h = ground (arith, codes_leb_total s t)

codes_leb_trans :
    (r s t : List ℕ) → codes_leb r s ≡ true → codes_leb s t ≡ true → codes_leb r t ≡ true
unfolding codes_leb
codes_leb_trans [] s t h k = refl
codes_leb_trans (a ∷ r) [] t h k = ground arith
codes_leb_trans (a ∷ r) (b ∷ s) [] h k = ground arith
codes_leb_trans (a ∷ r) (b ∷ s) (c ∷ t) h k = ground (arith, codes_leb_trans r s t)

codes_leb_antisymm : (s t : List ℕ) → codes_leb s t ≡ true → codes_leb t s ≡ true → s ≡ t
unfolding codes_leb
codes_leb_antisymm [] [] h k = refl
codes_leb_antisymm [] (b ∷ t) h k = ground arith
codes_leb_antisymm (a ∷ s) [] h k = ground arith
codes_leb_antisymm (a ∷ s) (b ∷ t) h k = ground (arith, codes_leb_antisymm s t)

codes_injective : (s t : String) → codes s ≡ codes t → s ≡ t
unfolding codes
codes_injective String.[] String.[] h = refl
codes_injective String.[] (String.◌∷◌ d t) h = ground arith
codes_injective (String.◌∷◌ c s) String.[] h = ground arith
codes_injective (String.◌∷◌ c s) (String.◌∷◌ d t) h =
    ap₂ String.◌∷◌ (Char-path c d (cc)) (codes_injective s t (cc))

pub string_leb_total : (s t : String) → string_leb s t ≡ false → string_leb t s ≡ true
unfolding string_leb
string_leb_total s t h = codes_leb_total (codes s) (codes t) h

pub string_leb_trans :
    (r s t : String) → string_leb r s ≡ true → string_leb s t ≡ true → string_leb r t ≡ true
unfolding string_leb
string_leb_trans r s t h k = codes_leb_trans (codes r) (codes s) (codes t) h k

pub string_leb_antisymm : (s t : String) → string_leb s t ≡ true → string_leb t s ≡ true → s ≡ t
unfolding string_leb
string_leb_antisymm s t h k = codes_injective s t (codes_leb_antisymm (codes s) (codes t) h k)

unfoldable pub insert_sorted : String → List String → List String
insert_sorted a [] = a ∷ []
insert_sorted a (x ∷ xs) = if string_leb a x then a ∷ x ∷ xs else x ∷ insert_sorted a xs

-- `sort.Strings`
unfoldable pub sort_strings : List String → List String
unfolding insert_sorted
sort_strings [] = []
sort_strings (x ∷ xs) = insert_sorted x (sort_strings xs)

contains-insert_sorted :
    (a : String) (xs : List String) (b : String)
    → contains (insert_sorted a xs) b ≡ (a == b || contains xs b)
unfolding insert_sorted
contains-insert_sorted a [] b = refl
contains-insert_sorted a (x ∷ xs) b = ground (arith, contains-insert_sorted a xs b)

pub contains-sort_strings :
    (xs : List String) (b : String) → contains (sort_strings xs) b ≡ contains xs b
unfolding sort_strings
contains-sort_strings [] b = refl
contains-sort_strings (x ∷ xs) b =
    ground (arith, contains-insert_sorted x (sort_strings xs) b, contains-sort_strings xs b)

insert_sorted_comm :
    (a b : String) (xs : List String)
    → insert_sorted a (insert_sorted b xs) ≡ insert_sorted b (insert_sorted a xs)
unfolding insert_sorted
insert_sorted_comm a b [] =
    ground (arith, string_leb_total a b, string_leb_total b a, string_leb_antisymm a b)
insert_sorted_comm a b (x ∷ xs) = ground (
  arith,
  string_leb_total a b,
  string_leb_total b a,
  string_leb_antisymm a b,
  string_leb_trans a b x,
  string_leb_trans b a x,
  string_leb_total a x,
  string_leb_total b x,
  string_leb_trans a x b,
  string_leb_trans b x a,
  insert_sorted_comm a b xs,
)

sort_strings-insert_sorted :
    (a : String) (xs : List String)
    → sort_strings (insert_sorted a xs) ≡ insert_sorted a (sort_strings xs)
unfolding insert_sorted sort_strings
sort_strings-insert_sorted a [] = refl
sort_strings-insert_sorted a (x ∷ xs) =
    ground (arith, sort_strings-insert_sorted a xs, insert_sorted_comm x a (sort_strings xs))

pub sort_strings_twice : (xs : List String) → sort_strings (sort_strings xs) ≡ sort_strings xs
unfolding sort_strings
sort_strings_twice [] = refl
sort_strings_twice (x ∷ xs) =
    sort_strings-insert_sorted x (sort_strings xs) ∙ ap (insert_sorted x) (sort_strings_twice xs)

insert_sorted_ne : (a : String) (xs : List String) → is_empty (insert_sorted a xs) ≡ false
unfolding insert_sorted
insert_sorted_ne a [] = refl
insert_sorted_ne a (x ∷ xs) = ground arith

pub is_empty-sort_strings : (xs : List String) → is_empty (sort_strings xs) ≡ is_empty xs
unfolding sort_strings
is_empty-sort_strings [] = refl
is_empty-sort_strings (x ∷ xs) = insert_sorted_ne x (sort_strings xs)

sort_strings-permᴰ : {xs ys : List String} → Permᴰ xs ys → sort_strings xs ≡ sort_strings ys
unfolding sort_strings
sort_strings-permᴰ Permᴰ.nil = refl
sort_strings-permᴰ (Permᴰ.cons e p) = ap₂ insert_sorted e (sort_strings-permᴰ p)
sort_strings-permᴰ (Permᴰ.swap {a} {b} {l = l} e f) =
    insert_sorted_comm a b (sort_strings l)
    ∙ ap₂ (λ x y. insert_sorted x (insert_sorted y (sort_strings l))) f e
sort_strings-permᴰ (Permᴰ.trans p q) = sort_strings-permᴰ p ∙ sort_strings-permᴰ q

List_String-set : IsSet (List String)
List_String-set = hlevel (hedberg string_eq.dec)

-- A sorted list does not depend on the order of the input.
pub sort_strings-perm : {xs ys : List String} → Perm xs ys → sort_strings xs ≡ sort_strings ys
sort_strings-perm {xs} {ys} p = ∥∥₁_elim p (List_String-set _ _) sort_strings-permᴰ
