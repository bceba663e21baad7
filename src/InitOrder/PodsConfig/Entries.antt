-- ===== src/InitOrder/PodsConfig/Entries.antt =====
-- What the pods' config map says, and where it says nothing.
use mathlib.Core.List.{Memᴰ}
use mr_cassop.Prelude.{
  String, ◌<>◌, ◌≡◌, refl, ap, ◌∙◌, false, none, some, List, [], ◌∷◌, map, arith, contains,
  contains-map, ◌==◌, string_eq, if◌then◌else◌, ok, and_then-eq-ok,
}
use mr_cassop.Prelude.Dict.{Dict, lookup, insert, lookup-insert}
use mr_cassop.Cluster.{Cluster, Pod, Node}
use mr_cassop.InitOrder.PodsConfig.{
  value_at, update_pod_ips, Shared, entry_name, settings_text, rack_of, entries,
}

-- The address that is recorded for a name that none of the pods has stays as it was.
pub update_pod_ips-kept :
    (pods : List Pod) (addresses recorded : Dict String String) (name : String)
    → contains (map (λ (p : Pod). p.name) pods) name ≡ false
    → lookup name (update_pod_ips pods addresses recorded) ≡ lookup name recorded
unfolding update_pod_ips
update_pod_ips-kept [] addresses recorded name absent = refl
update_pod_ips-kept (p ∷ pods) addresses recorded name absent = ground (
  arith,
  update_pod_ips-kept pods addresses recorded name,
  update_pod_ips-kept pods addresses (insert p.name (value_at p.name addresses) recorded) name,
  lookup-insert name p.name (value_at p.name addresses) recorded,
)

value_at_absent : (k : String) (m : Dict String String) → lookup k m ≡ none → value_at k m ≡ ""
unfolding value_at
value_at_absent k m h = ground arith

module _ (c : Cluster) (nodes : List Node) (sh : Shared) where
  -- Where some pod has no broadcast address, the whole map comes back empty and with no error,
  -- although the code means to report that pod. Every pod has an IP, and racks are not in use.
  pub entries_no_address :
      {p : Pod} (pods : List Pod) (m : Dict String String)
      → c.zones_as_racks ≡ false
      → contains (map (λ (q : Pod). q.pod_ip) pods) "" ≡ false
      → Memᴰ p pods
      → value_at p.name sh.addresses ≡ ""
      → entries c nodes sh pods m ≡ ok none
  unfolding entries
  entries_no_address [] m z s h e = elim h [ ]
  entries_no_address {p} (q ∷ pods) m z s (Memᴰ.head h) e =
      ground (arith, ap (λ (r : Pod). r.name) h)
  entries_no_address {p} (q ∷ pods) m z s (Memᴰ.tail h) e = ground (
    arith,
    entries_no_address pods
        (insert (entry_name q) (value_at (entry_name q) m <> ("" <> settings_text sh q)) m) z
        (ground arith) h e,
  )

  abbrev entry_text : String → Pod → Dict String String → String
  entry_text rack p m = value_at (entry_name p) m <> (rack <> settings_text sh p)

  entries-cons :
      (p : Pod) (pods : List Pod) (m : Dict String String) {r : Dict String String}
      → entries c nodes sh (p ∷ pods) m ≡ ok (some r)
      → (rack : String) × (rack_of c nodes p ≡ ok rack)
        × (entries c nodes sh pods (insert (entry_name p) (entry_text rack p m) m) ≡ ok (some r))
  unfolding entries
  entries-cons p pods m {r} e =
      let (rack, known, e') =
        and_then-eq-ok (rack_of c nodes p)
          (λ rack.
            if value_at p.name sh.addresses == ""
            then ok none
            else entries c nodes sh pods (insert (entry_name p) (entry_text rack p m) m))
          {b = some r} (ground arith) in
      (rack, known, ground arith)

  entries_kept :
      (pods : List Pod) (m : Dict String String) {r : Dict String String} (name : String)
      → contains (map entry_name pods) name ≡ false
      → entries c nodes sh pods m ≡ ok (some r)
      → lookup name r ≡ lookup name m
  entries_kept [] m name fresh e = unfold entries in ground arith
  entries_kept (p ∷ pods) m name fresh e =
      let (rack, _, e') = entries-cons p pods m e in
      entries_kept pods _ name (ground arith) e'
      ∙ ground (arith, lookup-insert name (entry_name p) (entry_text rack p m) m)

  -- The names of the entries of the pods are distinct, since those of the pods are.
  abbrev pub EntriesDiffer : List Pod → Type 0
  EntriesDiffer [] = Unit
  EntriesDiffer (p ∷ pods) =
      (contains (map entry_name pods) (entry_name p) ≡ false) × EntriesDiffer pods

  entries_complete_from :
      {p : Pod} (pods : List Pod) (m : Dict String String) {r : Dict String String}
      → EntriesDiffer pods
      → ((q : Pod) → Memᴰ q pods → lookup (entry_name q) m ≡ none)
      → Memᴰ p pods
      → entries c nodes sh pods m ≡ ok (some r)
      → (rack : String) × (rack_of c nodes p ≡ ok rack)
        × (lookup (entry_name p) r ≡ some ("" <> (rack <> settings_text sh p)))
  entries_complete_from [] m u fresh h e = elim h [ ]
  entries_complete_from {p} (q ∷ pods) m {r} (new, u) fresh (Memᴰ.head h) e =
      let (rack, known, e') = entries-cons q pods m e in
      rw h (
        rack,
        known,
        entries_kept pods (insert (entry_name q) (entry_text rack q m) m) (entry_name q) new e'
            ∙ ground (
              arith,
              lookup-insert (entry_name q) (entry_name q) (entry_text rack q m) m,
              value_at_absent (entry_name q) m (fresh q (Memᴰ.head refl)),
            ),
      )
  entries_complete_from {p} (q ∷ pods) m {r} (new, u) fresh (Memᴰ.tail h) e =
      let (rack, known, e') = entries-cons q pods m e in
      entries_complete_from pods (insert (entry_name q) (entry_text rack q m) m) u
        (λ o listed. ground (
          arith,
          fresh o (Memᴰ.tail listed),
          contains-map entry_name pods listed,
          lookup-insert (entry_name o) (entry_name q) (entry_text rack q m) m,
        ))
        h e'

  -- If the map of settings is made, it has an entry for every pod, which consists of the rack lines of
  -- the pod and of its settings: its broadcast address, the seeds, its previous address, and the
  -- decision of `pausePodInit` on it. The entries of the pods have different names.
  pub entries_complete :
      {p : Pod} (pods : List Pod) {r : Dict String String}
      → EntriesDiffer pods
      → Memᴰ p pods
      → entries c nodes sh pods [] ≡ ok (some r)
      → (rack : String) × (rack_of c nodes p ≡ ok rack)
        × (lookup (entry_name p) r ≡ some ("" <> (rack <> settings_text sh p)))
  unfolding lookup
  entries_complete pods u h e = entries_complete_from pods [] u (λ q listed. refl) h e
