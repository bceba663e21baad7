-- ===== src/Prober/State.antt =====
-- prober/prober/prober.go and prober/jolokia: the state of a prober, and what a node answers.
-- A Go map is a `Dict`. A nil map and an empty one look alike to the code and are both `[]`.
use mr_cassop.Prelude.{
  ℕ, ◌+◌, String, Bool, true, false, ◌&&◌, Option, none, some, List, [], ◌∷◌, map, leb, eqb,
  if◌then◌else◌,
}
use mr_cassop.Prelude.{string_eq}
use mr_cassop.Prelude.Order.{codes}
use mr_cassop.Prelude.Dict.{Dict, lookup}

-- `Internal_IP` and `RPC_Address` are read by no code of the prober.
pub record EndpointState : Type 0 where
  pub status : String
  pub dc : String
  pub rack : String
  pub internal_ip : String
  pub rpc_address : String

pub record NodeState : Type 0 where
  pub simple_states : Dict String String
  pub endpoint : EndpointState
  pub open endpoint use *

pub record Dc : Type 0 where
  pub name : String
  pub replicas : ℕ

abbrev pub Nodes : Type 0
Nodes = Dict String NodeState

pub record State : Type 0 where
  pub seeds : List String
  pub region_ready : Bool
  pub reaper_ready : Bool
  pub dcs : List Dc
  pub nodes : Nodes
  pub pod_ips : Dict String String
  pub region_ips : List String
  pub reaper_ips : List String

-- The zero values of Go.
abbrev pub no_endpoint : EndpointState
no_endpoint = record { status = ""; dc = ""; rack = ""; internal_ip = ""; rpc_address = "" }

abbrev pub empty_node : NodeState
empty_node = record { simple_states = []; endpoint = no_endpoint }

-- The state that `NewProber` starts with.
abbrev pub initial : State
initial = record {
  seeds = [];
  region_ready = false;
  reaper_ready = false;
  dcs = [];
  nodes = [];
  pod_ips = [];
  region_ips = [];
  reaper_ips = [];
}

abbrev pub or_empty : Option String → String
or_empty none = ""
or_empty (some s) = s

lower : ℕ → ℕ
lower c = if leb b'A' c && leb c b'Z' then c + 32 else c

codes_equal : List ℕ → List ℕ → Bool
codes_equal [] [] = true
codes_equal (a ∷ s) (b ∷ t) = eqb a b && codes_equal s t
codes_equal _ _ = false

-- `strings.ToLower(s) == t` for a lower case ASCII text `t`. Lowering the letters A to Z is exact
-- for the two texts that the prober compares with, since no other character is lowered to one of
-- their letters.
unfoldable pub lower_equals : String → String → Bool
unfolding codes lower codes_equal
lower_equals s t = codes_equal (map lower (codes s)) (codes t)

-- `node.SimpleStates[ip]`, the zero value if the node does not know the address.
unfoldable pub view_of : NodeState → String → String
view_of node ip = or_empty (lookup ip node.simple_states)

unfoldable pub is_up : NodeState → String → Bool
unfolding lower_equals view_of
is_up node ip = lower_equals (view_of node ip) "up"

unfoldable pub is_normal : NodeState → Bool
unfolding lower_equals
is_normal node = lower_equals node.status "normal"
