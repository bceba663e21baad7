-- ===== src/InitOrder/Seeds/Bounds.antt =====
-- How many seeds a DC has.
use mr_cassop.Prelude.{
  ℕ, zero, suc, ◌+◌, ◌≤◌, ◌<◌, String, ◌≡◌, refl, ◌⊎◌, Option, none, some, List, [], ◌∷◌, arith,
  length, length-append, ok, and_then-eq-ok,
}
use mr_cassop.Prelude.Dict.{Dict}
use mr_cassop.Cluster.{Cluster, Dc}
use mr_cassop.InitOrder.Seeds.{seeds_for, dc_number_of_seeds, seeds_from, get_local_seeds_hostnames}

-- With a positive number of seeds configured, a DC that has replicas has at least one seed, never
-- more seeds than configured or than replicas, and at least one node that is no seed as soon as it
-- has two replicas.
pub seeds_for_bounds :
    (num_seeds replicas : ℕ)
    → 0 < num_seeds
    → 0 < replicas
    → (0 < seeds_for num_seeds replicas)
      × (seeds_for num_seeds replicas ≤ num_seeds)
      × (seeds_for num_seeds replicas ≤ replicas)
      × ((replicas ≡ 1) ⊎ (seeds_for num_seeds replicas < replicas))
unfolding seeds_for
seeds_for_bounds num_seeds replicas h k = (ground arith, ground arith, ground arith, ground arith)

length-seeds_from :
    (digits : ℕ → String) (c : Cluster) (addresses : Dict String String) (dc : String) (i n : ℕ)
    → length (seeds_from digits c addresses dc i n) ≡ n
unfolding seeds_from
length-seeds_from digits c addresses dc i zero = refl
length-seeds_from digits c addresses dc i (suc n) =
    omega (arith, length-seeds_from digits c addresses dc (suc i) n)

abbrev or_zero : Option ℕ → ℕ
or_zero none = 0
or_zero (some n) = n

-- The seeds that the DCs have by `seeds_for`, in all.
pub total_seeds : ℕ → List Dc → ℕ
total_seeds n [] = 0
total_seeds n (dc ∷ dcs) = seeds_for n (or_zero dc.replicas) + total_seeds n dcs

-- The seeds of the region are, DC after DC, as many as `seeds_for` says.
pub length-get_local_seeds_hostnames :
    (digits : ℕ → String) (c : Cluster) (addresses : Dict String String) (dcs : List Dc)
    {seeds : List String}
    → get_local_seeds_hostnames digits c addresses dcs ≡ ok seeds
    → length seeds ≡ total_seeds c.num_seeds dcs
unfolding get_local_seeds_hostnames total_seeds dc_number_of_seeds
length-get_local_seeds_hostnames digits c addresses [] e = ground arith
length-get_local_seeds_hostnames digits c addresses (dc ∷ dcs) {seeds} e =
    let (n, counted, e') = and_then-eq-ok (dc_number_of_seeds c dc) _ e in
    let (rest, others, e'') =
      and_then-eq-ok (get_local_seeds_hostnames digits c addresses dcs) _ e' in
    ground (
      arith,
      length-get_local_seeds_hostnames digits c addresses dcs others,
      length-append (seeds_from digits c addresses dc.name 0 n) rest,
      length-seeds_from digits c addresses dc.name 0 n,
      counted,
      e'',
    )
