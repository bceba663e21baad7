-- ===== src/Restores/Changed.antt =====
-- When a failed restore is sent again (controllers/cassandrarestore/icarus.go).
use mr_cassop.Prelude.{
  ℕ, String, Bool, true, false, not, ◌&&◌, ◌||◌, Option, none, some, List, [], ◌∷◌, ◌≡◌, refl, sym,
  ap, ◌∙◌, ◌==◌, ==_refl, string_eq, arith, eqb,
}
use mathlib.Core.Path.{ap₂}
use mr_cassop.Prelude.Dict.{Dict, lookup, NodupKeys, lookup-cons}
use mr_cassop.Keyspaces.{covers}
use mr_cassop.Backups.{same_bool, same_list}
use mr_cassop.Restores.{RestoreRequest, same_map, same_request, restore_config_changed}

same_list_refl : (l : List String) → same_list l l ≡ true
same_list_refl [] = refl
same_list_refl (a ∷ l) = ground (arith, same_list_refl l)

-- Covering does not depend on an entry in front whose key is not asked for.
covers-cons :
    (k v : String) (a b : Dict String String)
    → lookup k b ≡ none
    → covers a b ≡ true
    → covers ((k, v) ∷ a) b ≡ true
unfolding covers lookup
covers-cons k v a [] h c = refl
covers-cons k v a ((j, w) ∷ b) h c = ground (arith, covers-cons k v a b)

covers_refl : (m : Dict String String) → NodupKeys m → covers m m ≡ true
unfolding covers
covers_refl [] u = refl
covers_refl ((k, v) ∷ m) (fresh, u) =
    ground (arith, covers-cons k v m m fresh (covers_refl m u), lookup-cons k k v m, ==_refl k)

same_bool_refl : (b : Bool) → same_bool b b ≡ true
same_bool_refl b = ground arith

eqb_refl : (n : ℕ) → eqb n n ≡ true
eqb_refl n = ground arith

same_map_refl :
    (o : Option (Dict String String)) (m : Dict String String)
    → o ≡ some m
    → NodupKeys m
    → same_map o o ≡ true
same_map_refl none m e u = refl
same_map_refl (some m') m e u = ground (arith, covers_refl m u)

and_true : (b : Bool) → (b && true) ≡ b
and_true b = ground arith

same_request-own :
    (req : RestoreRequest) (tag : String)
    → same_map req.rename req.rename ≡ true
    → same_request
        (record req { snapshot_tag = tag; schema_version = ""; exact_schema_version = false })
        req
      ≡ ("" == req.schema_version && not req.exact_schema_version)
unfolding same_request
same_request-own req tag m = simp (==_refl, same_bool_refl, eqb_refl, same_list_refl, m)

negated : (v : String) (e : Bool) → not ("" == v && not e) ≡ (not (v == "") || e)
negated v e = ground arith

-- A failed restore that Icarus lists with the fields of the request that was sent, under any tag,
-- counts as changed exactly if the request names a schema version or asks for an
-- exact one: the request that is rebuilt from the record leaves these two fields empty. The request
-- is global, of the kind "restore" and with a map of renamings, as the code builds it, and the keys
-- of that map are distinct, as those of a Go map are.
pub restore_config_changed-own :
    (req : RestoreRequest) (tag : String) (renamings : Dict String String)
    → req.kind ≡ "restore"
    → req.global_request ≡ true
    → req.rename ≡ some renamings
    → NodupKeys renamings
    → restore_config_changed (record { request = record req { snapshot_tag = tag } }) req
      ≡ (not (req.schema_version == "") || req.exact_schema_version)
unfolding restore_config_changed
restore_config_changed-own req tag renamings k g m u =
    ap not (
      ap₂
        (λ x y.
          same_request
            (record req {
              kind = x;
              global_request = y;
              snapshot_tag = tag;
              schema_version = "";
              exact_schema_version = false;
            })
            req)
        (sym k) (sym g)
      ∙ same_request-own req tag (same_map_refl req.rename renamings m u))
    ∙ negated req.schema_version req.exact_schema_version
