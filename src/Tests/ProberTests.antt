-- ===== src/Tests/ProberTests.antt =====
-- The prober and the job manager at concrete inputs.
use mr_cassop.Prelude.{
  ℕ, String, false, ◌&&◌, Option, none, some, [], ◌∷◌, any, all, ◌≡◌, refl, ◌==◌, string_eq,
  if◌then◌else◌, ok,
}
use mathlib.Core.Option.{none-ne-some}
use mr_cassop.Prelude.Dict.{Dict, lookup}
use mr_cassop.Prober.State.{NodeState, State, Nodes, initial, no_endpoint}
use mr_cassop.Prober.Readiness.{is_node_ready}
use mr_cassop.Prober.Readiness.Verdict.{healthy, content, is_node_ready-eq}
use mr_cassop.Prober.Polling.{Answer, answered, polled_state, poll}
use mr_cassop.Prober.Polling.Owned.{own_response, lookup-poll_known}
use mr_cassop.Prober.Server.{
  Json, UserAuth, Prober, get, put, seeds, reaper_ready, Request, unauthorized, is_open, authorized,
  serve, put_route,
}
use mr_cassop.Prober.Server.Guard.{with_auth, canonical, serve-unauthorized, serve_put-get}
use mr_cassop.Jobs
use mr_cassop.Jobs.Tracking.{steps-untracked}

abbrev node : String → Dict String String → NodeState
node status views = record {
  simple_states = views;
  endpoint = record no_endpoint { status = status; dc = "dc1" };
}

abbrev nodes : Nodes
nodes =
    ("/10.0.0.1", node "NORMAL" (("/10.0.0.1", "UP") ∷ ("/10.0.0.2", "DOWN") ∷ []))
    ∷ ("/10.0.0.2", node "LEAVING" [])
    ∷ []

is_node_ready-eq_example :
    (is_node_ready nodes "/10.0.0.2").0 ≡ (any healthy nodes && all (content "/10.0.0.2") nodes)
is_node_ready-eq_example = is_node_ready-eq nodes "/10.0.0.2"

abbrev known : State
known = record initial { nodes = nodes; dcs = record { name = "dc1"; replicas = 3 } ∷ [] }

abbrev digits : ℕ → String
digits n = "500"

-- A node that reports itself and a peer of the same DC.
abbrev ask : String → Answer
ask pod_ip = answered (record {
  status = 200;
  simple_states = ("/10.0.0.1", "UP") ∷ [];
  all_endpoint_states =
      ("/10.0.0.1", record no_endpoint { status = "NORMAL"; dc = "dc1" })
      ∷ ("/10.0.0.3", record no_endpoint { status = "NORMAL"; dc = "dc1" })
      ∷ [];
})

abbrev one_known : State
one_known = record known { nodes = ("/10.0.0.1", node "JOINING" []) ∷ [] }

lookup-poll_known_example : lookup "/10.0.0.1" (poll digits ask one_known) ≡ (
    let own = polled_state digits "/10.0.0.1" (own_response digits ask one_known "/10.0.0.1") in
    if own.dc == "" then none else some own)
unfolding lookup string_eq
lookup-poll_known_example =
    lookup-poll_known digits ask one_known "/10.0.0.1" {n = node "JOINING" []} (refl, tt) refl

abbrev json : Json
json = record {
  encode_strings = λ l. elim l [ [] ↦ "" | s ∷ _ ↦ s ];
  decode_strings = λ s. some (s ∷ []);
  encode_dcs = λ l. "";
  decode_dcs = λ s. none;
  encode_view = λ v. "";
}

abbrev prober : Prober
prober = record { state = initial; auth = record { user = "u"; password = "p" } }

abbrev request : Option UserAuth → Option String → Request
request c body = record {
  method = put;
  route = reaper_ready;
  credentials = c;
  pod_ip = "";
  body = body;
}

serve-unauthorized_example : serve json (request none (some "true")) prober ≡ (unauthorized, prober)
unfolding is_open
serve-unauthorized_example =
    serve-unauthorized json (request none (some "true")) prober refl (none-ne-some prober.auth)

serve_put-get_example :
    some
      (serve json
        (with_auth prober seeds "" get none)
        (serve json (with_auth prober seeds "" put (some "a")) prober).1).0.text
    ≡ canonical json seeds "a"
unfolding is_open serve authorized put_route string_eq
serve_put-get_example = serve_put-get json seeds "" "a" prober refl refl

abbrev running : Jobs.Manager
running = record Jobs.new_job_manager {
  jobs_list = ("j", record { finished = none; exit_err = none }) ∷ [];
}

steps-untracked_example :
    let m = Jobs.steps (Jobs.Event.run_event "j" ∷ []) Jobs.new_job_manager in
    (Jobs.exists "j" m ≡ false)
    × (Jobs.is_running "j" m ≡ false)
    × ((Jobs.run "j" m).0 ≡ ok tt)
    × ((Jobs.run "j" m).1.goroutines ≡ "j" ∷ m.goroutines)
steps-untracked_example = steps-untracked (Jobs.Event.run_event "j" ∷ []) "j"
