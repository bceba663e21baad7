-- ===== src/Defaults/Sysctls.antt =====
-- controllers/defaults.go, defaultSysctls: a second pass.
use mr_cassop.Prelude.{
  String, Bool, true, false, Option, none, some, [], ◌∷◌, ◌≡◌, refl, ap, arith, ==_refl, string_eq,
}
use mr_cassop.Prelude.Dict.{Dict, lookup, lookup-insert}
use mr_cassop.Defaults.{add_defaults, with_default, set_sysctls, default_sysctls}

abbrev is_set : Option String → Bool
is_set none = false
is_set (some v) = true

-- Every key of the first map is one of the second.
Covered : Dict String String → Dict String String → Type 0
Covered [] m = Unit
Covered ((k, _) ∷ d) m = (is_set (lookup k m) ≡ true) × Covered d m

add_defaults-same : (d m : Dict String String) → Covered d m → add_defaults d m ≡ m
unfolding add_defaults Covered
add_defaults-same [] m _ = refl
add_defaults-same ((k, v) ∷ d) m (h, c) = ground (arith, add_defaults-same d m c)

add_defaults-keeps :
    (k : String) (d m : Dict String String)
    → is_set (lookup k m) ≡ true
    → is_set (lookup k (add_defaults d m)) ≡ true
unfolding add_defaults
add_defaults-keeps k [] m h = h
add_defaults-keeps k ((j, v) ∷ d) m h =
    add_defaults-keeps k d (with_default j v m) (ground (arith, lookup-insert k j v m))

add_defaults-Covered : (d m : Dict String String) → Covered d (add_defaults d m)
unfolding add_defaults Covered
add_defaults-Covered [] m = tt
add_defaults-Covered ((k, v) ∷ d) m = (
  add_defaults-keeps k d (with_default k v m) (ground (arith, lookup-insert k k v m, ==_refl k)),
  add_defaults-Covered d (with_default k v m),
)

default_sysctls-Covered : Covered default_sysctls default_sysctls
unfolding Covered lookup string_eq
default_sysctls-Covered = (
  refl,
  (refl, (refl, (refl, (refl, (refl, (refl, (refl, (refl, (refl, (refl, (refl, tt))))))))))),
)

pub set_sysctls-twice :
    (s : Option (Dict String String)) → set_sysctls (set_sysctls s) ≡ set_sysctls s
unfolding set_sysctls
set_sysctls-twice none =
    ap some (add_defaults-same default_sysctls default_sysctls default_sysctls-Covered)
set_sysctls-twice (some m) = ap some (
    add_defaults-same default_sysctls (add_defaults default_sysctls m)
      (add_defaults-Covered default_sysctls m))
