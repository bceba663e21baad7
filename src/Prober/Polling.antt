-- ===== src/Prober/Polling.antt =====
-- prober/prober/node_states.go: `updateNodesRequest`, one round of polling.
pub mod Owned
use mr_cassop.Prelude.{
  ℕ, String, Bool, true, false, not, ◌&&◌, ◌||◌, Option, none, some, List, [], ◌∷◌, eqb, any, ◌==◌,
  string_eq, if◌then◌else◌,
}
use mr_cassop.Prelude.Dict.{Dict, lookup, insert}
use mr_cassop.Prober.State.{EndpointState, NodeState, Nodes, Dc, State, no_endpoint, or_empty}

-- `jolokia.CassandraResponse`: the status, and the value that is read if the status is 200.
pub record Response : Type 0 where
  pub status : ℕ
  pub simple_states : Dict String String
  pub all_endpoint_states : Dict String EndpointState

-- What `CassandraNodeState` gives: a response, or an error of the request.
pub data Answer : Type 0 where
  answered : Response → Answer
  failed : Answer

-- `http.StatusOK`, `http.StatusInternalServerError`
abbrev status_ok : ℕ
status_ok = 200

abbrev error_response : Response
error_response = record { status = 500; simple_states = []; all_endpoint_states = [] }

abbrev response_of : Answer → Response
response_of (answered r) = r
response_of failed = error_response

-- Every known node is asked at the pod address that is recorded for it, "" if there is none.
unfoldable pub all_nodes_states :
    (String → Answer) → Dict String String → Nodes → Dict String Response
all_nodes_states ask pod_ips [] = []
all_nodes_states ask pod_ips ((ip, _) ∷ nodes) =
    (ip, response_of (ask (or_empty (lookup ip pod_ips)))) ∷ all_nodes_states ask pod_ips nodes

abbrev pub owned_dc : List Dc → String → Bool
owned_dc dcs dc = any (λ (d : Dc). d.name == dc) dcs

abbrev is_known {ℓ} : {A : Type ℓ} → Option A → Bool
is_known none = false
is_known (some _) = true

-- The loop over the peers that a node reports: those of an owned DC that are not in the new map
-- are added to it.
unfoldable pub discover : List Dc → Dict String EndpointState → Nodes → Nodes
discover dcs [] new = new
discover dcs ((ip, endpoint) ∷ rest) new = discover dcs rest (
    if not (is_known (lookup ip new)) && owned_dc dcs endpoint.dc
    then insert ip (record { simple_states = []; endpoint = endpoint }) new
    else new)

abbrev endpoint_or_empty : Option EndpointState → EndpointState
endpoint_or_empty none = no_endpoint
endpoint_or_empty (some e) = e

-- The state that a polled node gets. `digits` is `strconv.Itoa`.
unfoldable pub polled_state : (ℕ → String) → String → Response → NodeState
polled_state digits ip r =
    if eqb r.status status_ok
    then record {
      simple_states = r.simple_states;
      endpoint = endpoint_or_empty (lookup ip r.all_endpoint_states);
    }
    else record { simple_states = (ip, digits r.status) ∷ []; endpoint = no_endpoint }

-- The body of the loop over the responses.
unfoldable pub absorb : (ℕ → String) → List Dc → String → Response → Nodes → Nodes
absorb digits dcs ip r new =
    insert ip (polled_state digits ip r)
      (if eqb r.status status_ok then discover dcs r.all_endpoint_states new else new)

unfoldable pub absorb_all : (ℕ → String) → List Dc → Dict String Response → Nodes → Nodes
absorb_all digits dcs [] new = new
absorb_all digits dcs ((ip, r) ∷ rest) new = absorb_all digits dcs rest (absorb digits dcs ip r new)

-- Entries with no DC are removed.
unfoldable pub drop_unreferenced : Nodes → Nodes
drop_unreferenced [] = []
drop_unreferenced ((ip, node) ∷ nodes) =
    let rest = drop_unreferenced nodes in if node.dc == "" then rest else (ip, node) ∷ rest

unfoldable pub poll : (ℕ → String) → (String → Answer) → State → Nodes
poll digits ask s =
    drop_unreferenced (absorb_all digits s.dcs (all_nodes_states ask s.pod_ips s.nodes) [])

-- `updateNodeStates`. The map is replaced if it differs from the new one, which has the same effect
-- as replacing it always.
unfoldable pub update_node_states : (ℕ → String) → (String → Answer) → State → State
unfolding poll
update_node_states digits ask s = elim s.nodes [
  | [] ↦ s
  | _ ∷ _ ↦ record s { nodes = poll digits ask s }
]
