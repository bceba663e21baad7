-- ===== src/Objects/Twice.antt =====
-- controllers/helpers.go: a second pass over an object that was just reconciled.
use mr_cassop.Prelude.{
  String, Bool, true, false, none, some, List, [], ◌∷◌, ◌≡◌, refl, sym, ◌∙◌, ap, arith, string_eq,
  ==_refl, ok, is_ok, Answer, Eq,
}
use mr_cassop.Prelude.Dict.{Dict, lookup, insert, NodupKeys, lookup-insert, insert-NodupKeys}
use mr_cassop.Cluster.{Get, found, not_found, failed}
use mr_cassop.Roles.{merge_map}
use mr_cassop.Objects.{
  KObject, Write, create, update, delete, merged, reconcile_secret, reconcile_config_map,
}

module _ {ℓ κ} {K : Type ℓ} {V : Type κ} ⦃e : Eq K⦄ where
  -- To write a value that is already there changes nothing.
  pub insert_same : (k : K) (v : V) (m : Dict K V) → lookup k m ≡ some v → insert k v m ≡ m
  unfolding insert lookup
  insert_same k v [] h = ground arith
  insert_same k v ((j, w) ∷ m) h = ground (arith, insert_same k v m)

lookup-merge_map_other :
    (k : String) (a b : Dict String String)
    → lookup k b ≡ none
    → lookup k (merge_map a b) ≡ lookup k a
unfolding merge_map lookup
lookup-merge_map_other k a [] h = refl
lookup-merge_map_other k a ((j, v) ∷ b) h =
    ground (arith, lookup-merge_map_other k (insert j v a) b, lookup-insert k j v a)

-- Every entry of a map stands in another.
abbrev pub Within : Dict String String → Dict String String → Type 0
Within [] m = Unit
Within ((k, v) ∷ b) m = (lookup k m ≡ some v) × Within b m

merge_map-Within : (a b : Dict String String) → NodupKeys b → Within b (merge_map a b)
unfolding merge_map
merge_map-Within a [] _ = tt
merge_map-Within a ((k, v) ∷ b) (fresh, u) = (
  ground (arith, lookup-merge_map_other k (insert k v a) b fresh, lookup-insert k k v a, ==_refl k),
  merge_map-Within (insert k v a) b u,
)

merge_map_absorbs : (b m : Dict String String) → Within b m → merge_map m b ≡ m
unfolding merge_map
merge_map_absorbs [] m _ = refl
merge_map_absorbs ((k, v) ∷ b) m (h, w) =
    ap (λ z. merge_map z b) (insert_same k v m h) ∙ merge_map_absorbs b m w

Within-cons :
    (k : String) (v : String) (b m : Dict String String)
    → lookup k b ≡ none
    → Within b m
    → Within b ((k, v) ∷ m)
unfolding lookup
Within-cons k v [] m _ _ = tt
Within-cons k v ((j, w) ∷ b) m h (x, r) = ground (arith, Within-cons k v b m)

Within-self : (b : Dict String String) → NodupKeys b → Within b b
unfolding lookup
Within-self [] _ = tt
Within-self ((k, v) ∷ b) (fresh, u) =
    (ground (arith, ==_refl k), Within-cons k v b b fresh (Within-self b u))

lookup-Within :
    (k v : String) (m x : Dict String String)
    → lookup k m ≡ some v
    → Within m x
    → lookup k x ≡ some v
unfolding lookup
lookup-Within k v [] x h _ = ground arith
lookup-Within k v ((j, w) ∷ m) x h (y, r) = ground (arith, lookup-Within k v m x)

Within-trans : (b m x : Dict String String) → Within b m → Within m x → Within b x
Within-trans [] m x _ _ = tt
Within-trans ((k, v) ∷ b) m x (h, r) w = (lookup-Within k v m x h w, Within-trans b m x r w)

merge_map-NodupKeys : (a b : Dict String String) → NodupKeys a → NodupKeys (merge_map a b)
unfolding merge_map
merge_map-NodupKeys a [] u = u
merge_map-NodupKeys a ((k, v) ∷ b) u =
    merge_map-NodupKeys (insert k v a) b (insert-NodupKeys k v a u)

-- The annotations after an update of a secret hold the desired ones.
merge_map_again :
    (a d : Dict String String)
    → NodupKeys a
    → NodupKeys d
    → merge_map (merge_map a (merge_map a d)) d ≡ merge_map a (merge_map a d)
merge_map_again a d u v = merge_map_absorbs d (merge_map a (merge_map a d)) (
    Within-trans d (merge_map a d) (merge_map a (merge_map a d)) (merge_map-Within a d v)
      (merge_map-Within a (merge_map a d) (merge_map-NodupKeys a d u)))

-- What a `Get` gives after the writes, on a server that keeps what it is sent.
abbrev pub stored : Get KObject → List Write → Get KObject
stored g [] = g
stored g (create o ∷ ws) = stored (found o) ws
stored g (update o ∷ ws) = stored (found o) ws
stored g (delete o ∷ ws) = stored not_found ws

-- `cmp.Equal` holds of two objects whose fields are equal.
abbrev pub Compares : (KObject → KObject → Bool) → Type 0
Compares equal =
    (a b : KObject)
    → a.name ≡ b.name
    → a.labels ≡ b.labels
    → a.data_of ≡ b.data_of
    → a.annotations ≡ b.annotations
    → a.owners ≡ b.owners
    → a.type_of ≡ b.type_of
    → equal a b ≡ true

-- The object that is there has the name and the type of the desired one.
abbrev pub SameKind : KObject → Get KObject → Type 0
SameKind d (found a) = (a.name ≡ d.name) × (a.type_of ≡ d.type_of) × NodupKeys a.annotations
SameKind d not_found = Unit
SameKind d (failed e) = Unit

module _ (equal : KObject → KObject → Bool) (cmp : Compares equal) (answer : Answer Write)
    (d : KObject) (unique : NodupKeys d.annotations) where
  again :
      (a : KObject)
      → a.name ≡ d.name
      → a.labels ≡ d.labels
      → a.data_of ≡ d.data_of
      → merge_map a.annotations d.annotations ≡ a.annotations
      → a.owners ≡ d.owners
      → a.type_of ≡ d.type_of
      → (s : List Write)
      → (reconcile_secret equal answer d (found a) s ≡ (ok tt, s))
        × (reconcile_config_map equal answer d (found a) s ≡ (ok tt, s))
  unfolding reconcile_secret reconcile_config_map merged
  again a n l t m o k s = ground (arith, cmp a (merged a d) n l t (sym m) o k)

  -- Once a desired secret was reconciled without an error, a second pass over what is stored then
  -- succeeds and sends nothing. Annotations have different keys, what was stored before is absent or
  -- has the desired name and type, and `equal` holds of objects with equal fields.
  pub reconcile_secret-twice :
      (g : Get KObject)
      → SameKind d g
      → is_ok (reconcile_secret equal answer d g []).0 ≡ true
      → reconcile_secret equal answer d
          (stored g (reconcile_secret equal answer d g []).1)
          (reconcile_secret equal answer d g []).1
        ≡ (ok tt, (reconcile_secret equal answer d g []).1)
  unfolding reconcile_secret merged
  reconcile_secret-twice not_found _ h =
      (again d refl refl refl
        (merge_map_absorbs d.annotations d.annotations (Within-self d.annotations unique)) refl refl
        (create d ∷ [])).0
  reconcile_secret-twice (failed e) _ h = ground arith
  reconcile_secret-twice (found a) (n, t, u) h = found_again (equal a (merged a d)) refl
    where
      found_again :
          (b : Bool)
          → equal a (merged a d) ≡ b
          → reconcile_secret equal answer d
              (stored (found a) (reconcile_secret equal answer d (found a) []).1)
              (reconcile_secret equal answer d (found a) []).1
            ≡ (ok tt, (reconcile_secret equal answer d (found a) []).1)
      found_again true e = ground arith
      found_again false e =
          let o = record a {
            labels = d.labels;
            data_of = d.data_of;
            annotations = merge_map a.annotations (merge_map a.annotations d.annotations);
            owners = d.owners;
          } in
          ground (
            arith,
            (again o n refl refl (merge_map_again a.annotations d.annotations u unique) refl t
                (update o ∷ [])).0,
          )
