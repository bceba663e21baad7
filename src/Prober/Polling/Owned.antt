-- ===== src/Prober/Polling/Owned.antt =====
-- What a round of polling leaves in the map of nodes.
use mr_cassop.Prelude.{
  ℕ, String, ◌≡◌, refl, ◌∙◌, ◌≢◌, true, Option, none, some, List, [], ◌∷◌, arith, ◌==◌, string_eq,
  if◌then◌else◌,
}
use mr_cassop.Prelude.Dict.{Dict, lookup, lookup-insert, NodupKeys, insert-NodupKeys}
use mr_cassop.Prober.State.{EndpointState, NodeState, Nodes, Dc, State, or_empty}
use mr_cassop.Prober.Polling.{
  Response, Answer, response_of, all_nodes_states, owned_dc, discover, polled_state, absorb,
  absorb_all, drop_unreferenced, poll, update_node_states,
}

-- Discovery adds entries and changes none.
lookup-discover :
    (dcs : List Dc) (peers : Dict String EndpointState) (new : Nodes) (ip : String) (n : NodeState)
    → lookup ip new ≡ some n
    → lookup ip (discover dcs peers new) ≡ some n
unfolding discover
lookup-discover dcs [] new ip n h = h
lookup-discover dcs ((j, endpoint) ∷ rest) new ip n h =
    lookup-discover dcs rest _ ip n
      (ground (arith, lookup-insert ip j (record { simple_states = []; endpoint = endpoint }) new))

module _ (digits : ℕ → String) (dcs : List Dc) where
  lookup-absorb_ne :
      (j ip : String) (r : Response) (new : Nodes) (n : NodeState)
      → lookup ip new ≡ some n
      → ip ≢ j
      → lookup ip (absorb digits dcs j r new) ≡ some n
  unfolding absorb
  lookup-absorb_ne j ip r new n h ne = ground (
    arith,
    lookup-discover dcs r.all_endpoint_states new ip n,
    lookup-insert ip j (polled_state digits j r) new,
    lookup-insert ip j (polled_state digits j r) (discover dcs r.all_endpoint_states new),
  )

  lookup-absorb_all_kept :
      (rs : Dict String Response) (new : Nodes) (ip : String) (n : NodeState)
      → lookup ip rs ≡ none
      → lookup ip new ≡ some n
      → lookup ip (absorb_all digits dcs rs new) ≡ some n
  unfolding absorb_all lookup
  lookup-absorb_all_kept [] new ip n absent h = h
  lookup-absorb_all_kept ((j, r) ∷ rs) new ip n absent h =
      lookup-absorb_all_kept rs _ ip n (ground arith)
        (lookup-absorb_ne j ip r new n h (ground arith))

  lookup-absorb_self :
      (ip : String) (r : Response) (new : Nodes)
      → lookup ip (absorb digits dcs ip r new) ≡ some (polled_state digits ip r)
  unfolding absorb
  lookup-absorb_self ip r new = ground (
    arith,
    lookup-insert ip ip (polled_state digits ip r) new,
    lookup-insert ip ip (polled_state digits ip r) (discover dcs r.all_endpoint_states new),
  )

  -- A polled node has the state of its own response, whatever its peers report of it.
  lookup-absorb_all :
      (rs : Dict String Response) (new : Nodes) (ip : String) (r : Response)
      → NodupKeys rs
      → lookup ip rs ≡ some r
      → lookup ip (absorb_all digits dcs rs new) ≡ some (polled_state digits ip r)
  unfolding absorb_all lookup
  lookup-absorb_all [] new ip r u h = ground arith
  lookup-absorb_all ((j, q) ∷ rs) new ip r (fresh, u) h = elim (string_eq.dec ip j) [
    | yes same ↦
        lookup-absorb_all_kept rs _ ip _ (rw same fresh)
          (ground (arith, lookup-absorb_self j q new))
    | no differs ↦ lookup-absorb_all rs _ ip r u (ground arith)
  ]

  -- What is not polled comes from a report of a peer, and is of an owned DC.
  abbrev FromOwnedDc : Option NodeState → Type 0
  FromOwnedDc none = Unit
  FromOwnedDc (some n) = owned_dc dcs n.dc ≡ true

  discover-FromOwnedDc :
      (peers : Dict String EndpointState) (new : Nodes) (ip : String)
      → FromOwnedDc (lookup ip new)
      → FromOwnedDc (lookup ip (discover dcs peers new))
  unfolding discover
  discover-FromOwnedDc [] new ip h = h
  discover-FromOwnedDc ((j, endpoint) ∷ rest) new ip h =
      discover-FromOwnedDc rest _ ip (
        ground (arith, lookup-insert ip j (record { simple_states = []; endpoint = endpoint }) new))

  absorb_all-FromOwnedDc :
      (rs : Dict String Response) (new : Nodes) (ip : String)
      → lookup ip rs ≡ none
      → FromOwnedDc (lookup ip new)
      → FromOwnedDc (lookup ip (absorb_all digits dcs rs new))
  unfolding absorb_all lookup absorb
  absorb_all-FromOwnedDc [] new ip absent h = h
  absorb_all-FromOwnedDc ((j, r) ∷ rs) new ip absent h =
      absorb_all-FromOwnedDc rs _ ip (ground arith) (
        ground (
          arith,
          discover-FromOwnedDc r.all_endpoint_states new ip h,
          lookup-insert ip j (polled_state digits j r) new,
          lookup-insert ip j (polled_state digits j r) (discover dcs r.all_endpoint_states new),
        ))

  discover-NodupKeys :
      (peers : Dict String EndpointState) (new : Nodes)
      → NodupKeys new
      → NodupKeys (discover dcs peers new)
  unfolding discover
  discover-NodupKeys [] new u = u
  discover-NodupKeys ((j, endpoint) ∷ rest) new u = discover-NodupKeys rest _ (
      ground (arith, insert-NodupKeys j (record { simple_states = []; endpoint = endpoint }) new u))

  absorb_all-NodupKeys :
      (rs : Dict String Response) (new : Nodes)
      → NodupKeys new
      → NodupKeys (absorb_all digits dcs rs new)
  unfolding absorb_all absorb
  absorb_all-NodupKeys [] new u = u
  absorb_all-NodupKeys ((j, r) ∷ rs) new u =
      absorb_all-NodupKeys rs _
        (insert-NodupKeys j _ _ (ground (arith, discover-NodupKeys r.all_endpoint_states new u)))

abbrev referenced : Option NodeState → Option NodeState
referenced none = none
referenced (some n) = if n.dc == "" then none else some n

lookup-drop_unreferenced :
    (nodes : Nodes) (ip : String)
    → NodupKeys nodes
    → lookup ip (drop_unreferenced nodes) ≡ referenced (lookup ip nodes)
unfolding drop_unreferenced lookup
lookup-drop_unreferenced [] ip u = refl
lookup-drop_unreferenced ((j, n) ∷ nodes) ip (fresh, u) = elim (string_eq.dec ip j) [
  | yes same ↦ rw (same) (ground (arith, lookup-drop_unreferenced nodes j u))
  | no differs ↦ ground (arith, lookup-drop_unreferenced nodes ip u)
]

drop_unreferenced-NodupKeys :
    (nodes : Nodes) → NodupKeys nodes → NodupKeys (drop_unreferenced nodes)
unfolding drop_unreferenced
drop_unreferenced-NodupKeys [] u = u
drop_unreferenced-NodupKeys ((j, n) ∷ nodes) (fresh, u) =
    ground (arith, drop_unreferenced-NodupKeys nodes u, lookup-drop_unreferenced nodes j u)

module _ (ask : String → Answer) (pod_ips : Dict String String) where
  lookup-all_nodes_states :
      (nodes : Nodes) (ip : String)
      → lookup ip (all_nodes_states ask pod_ips nodes) ≡ (elim (lookup ip nodes) [
        | none ↦ none
        | some _ ↦ some (response_of (ask (or_empty (lookup ip pod_ips))))
      ])
  unfolding all_nodes_states lookup
  lookup-all_nodes_states [] ip = refl
  lookup-all_nodes_states ((j, n) ∷ nodes) ip = elim (string_eq.dec ip j) [
    | yes same ↦ rw same (ground (arith))
    | no differs ↦ ground (arith, lookup-all_nodes_states nodes ip)
  ]

  all_nodes_states-NodupKeys :
      (nodes : Nodes) → NodupKeys nodes → NodupKeys (all_nodes_states ask pod_ips nodes)
  unfolding all_nodes_states
  all_nodes_states-NodupKeys [] u = u
  all_nodes_states-NodupKeys ((j, n) ∷ nodes) (fresh, u) =
      (ground (arith, lookup-all_nodes_states nodes j), all_nodes_states-NodupKeys nodes u)

module _ (digits : ℕ → String) (ask : String → Answer) (s : State) where
  abbrev pub own_response : String → Response
  own_response ip = response_of (ask (or_empty (lookup ip s.pod_ips)))

  -- After a round, a node that was known has the state of its own response, whatever its peers
  -- report of it; it is gone if that response is not a success or gives it no DC. The keys of the
  -- map of nodes are distinct, as those of a Go map are.
  pub lookup-poll_known :
      (ip : String) {n : NodeState}
      → NodupKeys s.nodes
      → lookup ip s.nodes ≡ some n
      → lookup ip (poll digits ask s) ≡ (
          let own = polled_state digits ip (own_response ip) in
          if own.dc == "" then none else some own)
  unfolding poll
  lookup-poll_known ip {n} u known =
      let rs = all_nodes_states ask s.pod_ips s.nodes in
      rw
        (
          lookup-drop_unreferenced _ ip (absorb_all-NodupKeys digits s.dcs rs [] tt),
          lookup-absorb_all digits s.dcs rs [] ip (own_response ip)
              (all_nodes_states-NodupKeys ask s.pod_ips s.nodes u)
              (lookup-all_nodes_states ask s.pod_ips s.nodes ip ∙ rw known),
        )
        refl

  -- A node that the round adds was reported by a peer and belongs to a DC that the prober owns.
  pub lookup-poll_new :
      (ip : String) {n : NodeState}
      → lookup ip s.nodes ≡ none
      → lookup ip (poll digits ask s) ≡ some n
      → owned_dc s.dcs n.dc ≡ true
  unfolding poll lookup
  lookup-poll_new ip {n} unknown found =
      let rs = all_nodes_states ask s.pod_ips s.nodes in
      let result = absorb_all digits s.dcs rs [] in
      ground (
        arith,
        lookup-drop_unreferenced result ip (absorb_all-NodupKeys digits s.dcs rs [] tt),
        absorb_all-FromOwnedDc digits s.dcs rs [] ip
            (lookup-all_nodes_states ask s.pod_ips s.nodes ip ∙ rw unknown) tt,
      )

-- Polling keeps the keys of the map of nodes distinct.
pub update_node_states-NodupKeys :
    (digits : ℕ → String) (ask : String → Answer) (s : State)
    → NodupKeys s.nodes
    → NodupKeys (update_node_states digits ask s).nodes
unfolding update_node_states
update_node_states-NodupKeys digits ask s u = update s.nodes refl
  where
    update : (nodes : Nodes) → s.nodes ≡ nodes → NodupKeys (update_node_states digits ask s).nodes
    update [] e = rw (e, update_node_states) u
    update (_ ∷ _) e =
        rw (e, update_node_states)
          (drop_unreferenced-NodupKeys _ (absorb_all-NodupKeys digits s.dcs _ [] tt))
