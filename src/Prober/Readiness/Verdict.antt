-- ===== src/Prober/Readiness/Verdict.antt =====
-- When a node counts as ready.
use mr_cassop.Prelude.{
  ◌+◌, ◌≤◌, String, ◌<>◌, ◌≡◌, refl, inl, inr, Option-cases, Bool, false, not, ◌&&◌, ◌||◌, none,
  some, List, [], ◌∷◌, ◌++◌, arith, eqb, length, length-append, is_empty, any, all, ◌==◌, string_eq,
  if◌then◌else◌,
}
use mr_cassop.Prelude.Dict.{lookup, insert, lookup-insert}
use mr_cassop.Prober.State.{NodeState, Nodes, State, empty_node, is_up, is_normal}
use mr_cassop.Prober.Readiness.{
  Tally, count_peer, count_peers, no_peers, is_node_ready, register, process_readiness_probe,
}

-- A peer whose view counts: its status is NORMAL and it sees itself up.
abbrev pub healthy : String × NodeState → Bool
healthy (peer, node) = is_normal node && is_up node peer

-- A peer that does not speak against the node `ip`.
abbrev pub content : String → String × NodeState → Bool
content ip (peer, node) = not (healthy (peer, node)) || is_up node ip

is_empty-append : {A : Type 0} (xs ys : List A) → is_empty (xs ++ ys) ≡ (is_empty xs && is_empty ys)
is_empty-append [] ys = refl
is_empty-append (x ∷ xs) ys = refl

ignored-count_peers :
    (ip : String) (nodes : Nodes) (t : Tally)
    → length (count_peers ip nodes t).ignored ≤ length t.ignored + length nodes
unfolding count_peers
ignored-count_peers ip [] t = ground arith
ignored-count_peers ip ((peer, node) ∷ nodes) t = ground (
  arith,
  ignored-count_peers ip nodes (count_peer ip peer node t),
  length-append t.ignored (peer ∷ []),
)

-- Every peer is ignored exactly when no peer is healthy.
all_ignored :
    (ip : String) (nodes : Nodes) (t : Tally)
    → eqb (length (count_peers ip nodes t).ignored) (length t.ignored + length nodes)
      ≡ not (any healthy nodes)
unfolding count_peers
all_ignored ip [] t = ground arith
all_ignored ip ((peer, node) ∷ nodes) t = ground (
  arith,
  all_ignored ip nodes (count_peer ip peer node t),
  ignored-count_peers ip nodes (count_peer ip peer node t),
  length-append t.ignored (peer ∷ []),
)

none_unready :
    (ip : String) (nodes : Nodes) (t : Tally)
    → is_empty (count_peers ip nodes t).unready_view
      ≡ (is_empty t.unready_view && all (content ip) nodes)
unfolding count_peers
none_unready ip [] t = ground arith
none_unready ip ((peer, node) ∷ nodes) t = ground (
  arith,
  none_unready ip nodes (count_peer ip peer node t),
  is_empty-append t.unready_view (peer ∷ []),
)

-- A node is ready exactly when some known node is healthy (its status is NORMAL and it sees itself
-- UP) and every healthy node sees the node as UP. Nodes that are not healthy have no say.
pub is_node_ready-eq :
    (nodes : Nodes) (ip : String)
    → (is_node_ready nodes ip).0 ≡ (any healthy nodes && all (content ip) nodes)
unfolding is_node_ready
is_node_ready-eq nodes ip =
    ground (arith, all_ignored ip nodes no_peers, none_unready ip nodes no_peers)

-- An entry that is registered and not polled yet is not healthy.
empty_node_not_healthy : (ip : String) → healthy (ip, empty_node) ≡ false
unfolding is_normal
empty_node_not_healthy ip = refl

any-insert :
    (ip : String) (nodes : Nodes)
    → lookup ip nodes ≡ none
    → any healthy (insert ip empty_node nodes) ≡ any healthy nodes
unfolding insert lookup
any-insert ip [] h = ground (arith, empty_node_not_healthy ip)
any-insert ip ((j, n) ∷ nodes) h = ground (arith, any-insert ip nodes)

all-insert :
    (ip : String) (nodes : Nodes)
    → lookup ip nodes ≡ none
    → all (content ip) (insert ip empty_node nodes) ≡ all (content ip) nodes
unfolding insert lookup
all-insert ip [] h = ground (arith, empty_node_not_healthy ip)
all-insert ip ((j, n) ∷ nodes) h = ground (arith, all-insert ip nodes)

register-verdict :
    (pod_ip ip : String) (s : State)
    → (is_node_ready (register pod_ip ip s).nodes ip).0 ≡ (is_node_ready s.nodes ip).0
unfolding register
register-verdict pod_ip ip s = elim (Option-cases (lookup ip s.nodes)) [
  | inl new ↦
      rw (is_node_ready-eq, is_node_ready-eq)
        (ground (arith, any-insert ip s.nodes, all-insert ip s.nodes))
  | inr known ↦ ground arith
]

-- The verdict of a readiness probe is that of the nodes known before it: the entry that a probe
-- adds for an address it has not seen does not count.
pub process_readiness_probe-verdict :
    (pod_ip broadcast_ip : String) (s : State)
    → (process_readiness_probe pod_ip broadcast_ip s).0.0
      ≡ (is_node_ready s.nodes ("/" <> broadcast_ip)).0
unfolding process_readiness_probe
process_readiness_probe-verdict pod_ip broadcast_ip s =
    register-verdict pod_ip ("/" <> broadcast_ip) s

-- A probe leaves its address among the known ones, and changes no entry that was there.
pub process_readiness_probe-registers :
    (pod_ip broadcast_ip ip : String) (s : State)
    → lookup ip (process_readiness_probe pod_ip broadcast_ip s).1.nodes
      ≡ (elim (lookup ip s.nodes) [
        | none ↦ if ip == ("/" <> broadcast_ip) then some empty_node else none
        | some node ↦ some node
      ])
unfolding process_readiness_probe
process_readiness_probe-registers pod_ip broadcast_ip ip s =
    ground (arith, lookup-insert ip ("/" <> broadcast_ip) empty_node s.nodes)
