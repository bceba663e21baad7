-- ===== src/InitOrder/Pods/OneByOne.antt =====
-- While a DC is initialised, its nodes join one at a time.
use mathlib.Core.List.{Memᴰ}
use mr_cassop.Prelude.{
  String, ◌≡◌, refl, sym, ap, ◌∙◌, ◌≢◌, inl, inr, Bool, true, false, not, ◌||◌, some, List, [], ◌∷◌,
  map, arith, contains, contains-map, ◌==◌, string_eq, Bool-cases,
}
use mr_cassop.Prelude.Dict.{Dict, lookup, insert, lookup-insert}
use mr_cassop.Prelude.Order.{contains-sort_strings}
use mr_cassop.Cluster.{Pod}
use mr_cassop.InitOrder.Pods.{
  dc_of, is_seed_pod, pod_ready, dc_seed_pods_ready, candidates, pods_by_name, waits, first_waiting,
  name_or_empty, next_non_seed_pod_to_init, pause_pod_init,
}

-- Kubernetes gives the pods of a namespace different names.
abbrev pub NamesDiffer : List Pod → Type 0
NamesDiffer [] = Unit
NamesDiffer (p ∷ ps) = (contains (map (λ (q : Pod). q.name) ps) p.name ≡ false) × NamesDiffer ps

lookup-pods_by_name_ne :
    (ps : List Pod) (m : Dict String Pod) (name : String)
    → contains (map (λ (q : Pod). q.name) ps) name ≡ false
    → lookup name (pods_by_name ps m) ≡ lookup name m
unfolding pods_by_name
lookup-pods_by_name_ne [] m name h = refl
lookup-pods_by_name_ne (p ∷ ps) m name h =
    ground
      (arith, lookup-pods_by_name_ne ps (insert p.name p m) name, lookup-insert name p.name p m)

-- A pod of the list is found under its name.
lookup-pods_by_name :
    {p : Pod} (ps : List Pod) (m : Dict String Pod)
    → NamesDiffer ps
    → Memᴰ p ps
    → lookup p.name (pods_by_name ps m) ≡ some p
unfolding pods_by_name
lookup-pods_by_name {p} [] m u h = elim h [ ]
lookup-pods_by_name {p} (q ∷ ps) m (fresh, u) (Memᴰ.head e) = rw e (
    lookup-pods_by_name_ne ps (insert q.name q m) q.name fresh
    ∙ ground (arith, lookup-insert q.name q.name q m))
lookup-pods_by_name {p} (q ∷ ps) m (fresh, u) (Memᴰ.tail t) = lookup-pods_by_name ps _ u t

abbrev names_of : List Pod → List String
names_of = map (λ (q : Pod). q.name)

contains-candidates :
    (ps : List Pod) (dc name : String)
    → contains (names_of ps) name ≡ false
    → contains (names_of (candidates ps dc)) name ≡ false
unfolding candidates
contains-candidates [] dc name h = refl
contains-candidates (p ∷ ps) dc name h = ground (arith, contains-candidates ps dc name)

candidates-NamesDiffer :
    (ps : List Pod) (dc : String) → NamesDiffer ps → NamesDiffer (candidates ps dc)
unfolding candidates
candidates-NamesDiffer [] dc u = tt
candidates-NamesDiffer (p ∷ ps) dc (fresh, u) =
    ground (arith, candidates-NamesDiffer ps dc u, contains-candidates ps dc p.name fresh)

mem-candidates :
    {p : Pod} (ps : List Pod) (dc : String) → dc_of p ≡ dc → Memᴰ p ps → Memᴰ p (candidates ps dc)
unfolding candidates
mem-candidates [] dc d h = elim h [ ]
mem-candidates {p} (q ∷ ps) dc d (Memᴰ.head e) = elim (Bool-cases (dc == "" || dc_of q == dc)) [
  | inl keep ↦ rw keep (Memᴰ.head e)
  | inr drop ↦ absurd (ground (arith, ap dc_of e))
]
mem-candidates {p} (q ∷ ps) dc d (Memᴰ.tail t) = elim (Bool-cases (dc == "" || dc_of q == dc)) [
  | inl keep ↦ rw keep (Memᴰ.tail (mem-candidates ps dc d t))
  | inr drop ↦ rw drop (mem-candidates ps dc d t)
]

-- No waiting pod of the map has the empty name.
abbrev Named : Dict String Pod → Type 0
Named m = (k : String) → name_or_empty (lookup k m) ≡ "" → waits (lookup k m) ≡ false

pods_by_name-Named :
    (ps : List Pod) (m : Dict String Pod)
    → contains (names_of ps) "" ≡ false
    → Named m
    → Named (pods_by_name ps m)
unfolding pods_by_name
pods_by_name-Named [] m h n = n
pods_by_name-Named (p ∷ ps) m h n =
    pods_by_name-Named ps (insert p.name p m) (ground arith)
      λ k e. ground (arith, lookup-insert k p.name p m, n k)

first_waiting-ne_empty :
    (m : Dict String Pod) (names : List String) (name : String)
    → Named m
    → contains names name ≡ true
    → waits (lookup name m) ≡ true
    → first_waiting m names ≢ ""
unfolding first_waiting
first_waiting-ne_empty m [] name n c w = cc
first_waiting-ne_empty m (k ∷ names) name n c w =
    ground (arith, n k, first_waiting-ne_empty m names name n)

-- If some pod of the DC is no seed and not ready, a next pod is chosen.
next_non_seed-ne_empty :
    {p : Pod} (pods : List Pod) (dc : String)
    → NamesDiffer pods
    → contains (names_of pods) "" ≡ false
    → Memᴰ p pods
    → dc_of p ≡ dc
    → is_seed_pod p ≡ false
    → pod_ready p ≡ false
    → next_non_seed_pod_to_init pods dc ≢ ""
unfolding next_non_seed_pod_to_init lookup
next_non_seed-ne_empty {p} pods dc u named here in_dc seed ready =
    let cs = candidates pods dc in
    let inside = mem-candidates pods dc in_dc here in
    first_waiting-ne_empty (pods_by_name cs []) _ p.name
      (pods_by_name-Named cs [] (contains-candidates pods dc "" named) λ k e. refl)
      (contains-sort_strings (names_of cs) p.name ∙ contains-map (λ (q : Pod). q.name) cs inside)
      (rw (lookup-pods_by_name cs [] (candidates-NamesDiffer pods dc u) inside) (ground arith))

-- The decision of `podsConfigMapData` for a pod: is it told to start?
unfoldable pub may_start : List Pod → String → Pod → Bool
may_start pods dc p =
    not
      (pause_pod_init p dc false (dc_seed_pods_ready pods dc) (next_non_seed_pod_to_init pods dc)).0

-- A pod of the DC that joins as an ordinary node: no seed, and not ready yet.
pub record IsJoining (pods : List Pod) (dc : String) (p : Pod) : Type 0 where
  pub listed : Memᴰ p pods
  pub in_dc : dc_of p ≡ dc
  pub no_seed : is_seed_pod p ≡ false
  pub not_ready : pod_ready p ≡ false

joining_name :
    {p : Pod} (pods : List Pod) (dc : String)
    → NamesDiffer pods
    → contains (names_of pods) "" ≡ false
    → dc ≢ ""
    → IsJoining pods dc p
    → may_start pods dc p ≡ true
    → p.name ≡ next_non_seed_pod_to_init pods dc
unfolding may_start pause_pod_init
joining_name {p} pods dc u named real j starts =
    ground (arith, next_non_seed-ne_empty pods dc u named j.listed j.in_dc j.no_seed j.not_ready)

-- While a DC is initialised, at most one of its nodes that are neither seeds nor ready is told to
-- start, and only once the seeds are ready: two such pods that may start have one name. Pods have
-- different names, which are not empty.
pub one_joins :
    {p q : Pod} (pods : List Pod) (dc : String)
    → NamesDiffer pods
    → contains (map (λ (r : Pod). r.name) pods) "" ≡ false
    → dc ≢ ""
    → IsJoining pods dc p
    → IsJoining pods dc q
    → may_start pods dc p ≡ true
    → may_start pods dc q ≡ true
    → (p.name ≡ q.name) × (dc_seed_pods_ready pods dc ≡ true)
unfolding may_start pause_pod_init
one_joins pods dc u named real jp jq sp sq = (
  joining_name pods dc u named real jp sp ∙ sym (joining_name pods dc u named real jq sq),
  ground arith,
)

-- A pod of a DC that is not the next one never starts before it, whatever the state of its pods.
pub other_dc_waits :
    (pods : List Pod) (dc : String) (p : Pod) → dc ≢ "" → dc_of p ≢ dc → may_start pods dc p ≡ false
unfolding may_start pause_pod_init
other_dc_waits pods dc p real other = ground arith
