-- ===== src/Prober/Readiness.antt =====
-- prober/prober/node_states.go: `processReadinessProbe` and `isNodeReady`.
pub mod Verdict
use mr_cassop.Prelude.{
  ℕ, String, ◌<>◌, Bool, true, false, not, ◌&&◌, ◌||◌, Option, none, some, List, [], ◌∷◌, ◌++◌, eqb,
  length, is_empty, string_eq, if◌then◌else◌,
}
use mr_cassop.Prelude.Dict.{Dict, lookup, insert}
use mr_cassop.Prober.State.{NodeState, Nodes, State, empty_node, is_up, is_normal}

-- The three local variables of the loop in `isNodeReady`.
pub record Tally : Type 0 where
  pub unready_view : List String
  pub ignored : List String
  pub cluster_view : Dict String String

or_unknown : Option String → String
or_unknown none = "?"
or_unknown (some s) = s

-- One round of the loop, for the peer `peer` with state `node`.
count_peer : String → String → NodeState → Tally → Tally
unfolding or_unknown
count_peer ip peer node t =
    let view = insert peer (or_unknown (lookup ip node.simple_states)) t.cluster_view in
    if not (is_normal node) || not (is_up node peer)
    then record t { ignored = t.ignored ++ (peer ∷ []); cluster_view = view }
    else if not (is_up node ip)
    then record t { unready_view = t.unready_view ++ (peer ∷ []); cluster_view = view }
    else record t { cluster_view = view }

unfoldable pub count_peers : String → Nodes → Tally → Tally
unfolding count_peer
count_peers ip [] t = t
count_peers ip ((peer, node) ∷ nodes) t = count_peers ip nodes (count_peer ip peer node t)

abbrev pub no_peers : Tally
no_peers = record { unready_view = []; ignored = []; cluster_view = [] }

verdict : ℕ → Tally → Bool
verdict n t = if eqb (length t.ignored) n then false else is_empty t.unready_view

unfoldable pub is_node_ready : Nodes → String → Bool × Dict String String
unfolding count_peers verdict
is_node_ready nodes ip =
    let t = count_peers ip nodes no_peers in (verdict (length nodes) t, t.cluster_view)

-- An address that the prober has not seen before is remembered, with the pod that asked.
unfoldable pub register : String → String → State → State
register pod_ip ip s = elim (lookup ip s.nodes) [
  | none ↦ record s {
    nodes = insert ip empty_node s.nodes;
    pod_ips = insert ip ("/" <> pod_ip) s.pod_ips;
  }
  | some _ ↦ s
]

-- The verdict and the view, with the state that the probe leaves.
unfoldable pub process_readiness_probe :
    String → String → State → (Bool × Dict String String) × State
unfolding register is_node_ready
process_readiness_probe pod_ip broadcast_ip s =
    let ip = "/" <> broadcast_ip in let s' = register pod_ip ip s in (is_node_ready s'.nodes ip, s')
