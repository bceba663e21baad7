-- ===== src/Prober/Server.antt =====
-- prober/prober/handlers.go and `BasicAuth`, `setupRoutes` of prober.go: the HTTP interface, with
-- the two handlers of auth_secret.go that change the credentials.
pub mod Guard
use mr_cassop.Prelude.{
  ℕ, String, Bool, true, false, ◌&&◌, ◌||◌, Option, none, some, List, [], ◌∷◌, any, ◌==◌, string_eq,
  if◌then◌else◌,
}
use mr_cassop.Prelude.Dict.{Dict}
use mr_cassop.Prober.State.{Dc, State}
use mr_cassop.Prober.Readiness.{process_readiness_probe}

-- `encoding/json`, for the two types of values that the handlers exchange.
pub record Json : Type 0 where
  pub encode_strings : List String → String
  pub decode_strings : String → Option (List String)
  pub encode_dcs : List Dc → String
  pub decode_dcs : String → Option (List Dc)
  pub encode_view : Dict String String → String

pub record UserAuth : Type 0 where
  pub user : String
  pub password : String

pub record Prober : Type 0 where
  pub state : State
  pub auth : UserAuth

pub data Method : Type 0 where
  get put : Method

-- The routes of `setupRoutes` but `/metrics`, which the metrics library serves.
pub data Route : Type 0 where
  healthz : String → Route
  ping region_ready reaper_ready seeds dcs region_ips reaper_ips : Route

pub record Request : Type 0 where
  pub method : Method
  pub route : Route
  pub credentials : Option UserAuth
  pub pod_ip : String
  pub body : Option String  -- `none` if the body cannot be read

pub record Reply : Type 0 where
  pub status : ℕ
  pub text : String

abbrev pub reply_ok : String → Reply
reply_ok text = record { status = 200; text = text }

abbrev pub bad_request : Reply
bad_request = record { status = 400; text = "" }

abbrev pub not_found : String → Reply
not_found text = record { status = 404; text = text }

abbrev pub internal_error : Reply
internal_error = record { status = 500; text = "" }

abbrev pub unauthorized : Reply
unauthorized = record { status = 401; text = "Unauthorized" }

-- `strconv.ParseBool`, `strconv.FormatBool`
unfoldable pub parse_bool : String → Option Bool
parse_bool s =
    if any (λ t. s == t) ("1" ∷ "t" ∷ "T" ∷ "TRUE" ∷ "true" ∷ "True" ∷ [])
    then some true
    else if any (λ t. s == t) ("0" ∷ "f" ∷ "F" ∷ "FALSE" ∷ "false" ∷ "False" ∷ [])
    then some false
    else none

abbrev pub format_bool : Bool → String
format_bool true = "true"
format_bool false = "false"

-- The shape of the six PUT handlers: an unreadable body is a server error, one that does not parse
-- a bad request, and neither changes the state.
abbrev store_parsed : {A : Type 0} → Option A → (A → State) → State → Reply × State
store_parsed none set s = (bad_request, s)
store_parsed (some a) set s = (reply_ok "", set a)

abbrev put_value :
    {A : Type 0} → (String → Option A) → (A → State) → Option String → State → Reply × State
put_value parse set none s = (internal_error, s)
put_value parse set (some body) s = store_parsed (parse body) set s

health_check : Json → String → String → State → Reply × State
health_check json pod_ip broadcast_ip s =
    let ((ready, view), s') = process_readiness_probe pod_ip broadcast_ip s in
    (record { status = if ready then 200 else 404; text = json.encode_view view }, s')

-- The handler of each route. A method that a route does not have gets the router's 405.
method_not_allowed : Reply
method_not_allowed = record { status = 405; text = "Method Not Allowed" }

unfoldable pub get_route : Json → Route → String → State → Reply × State
unfolding health_check
get_route json (healthz ip) pod_ip s = health_check json pod_ip ip s
get_route json ping pod_ip s = (reply_ok "pong", s)
get_route json region_ready pod_ip s = (reply_ok (format_bool s.region_ready), s)
get_route json reaper_ready pod_ip s = (reply_ok (format_bool s.reaper_ready), s)
get_route json seeds pod_ip s = (reply_ok (json.encode_strings s.seeds), s)
get_route json dcs pod_ip s = (reply_ok (json.encode_dcs s.dcs), s)
get_route json region_ips pod_ip s = (reply_ok (json.encode_strings s.region_ips), s)
get_route json reaper_ips pod_ip s = (reply_ok (json.encode_strings s.reaper_ips), s)

unfoldable pub put_route : Json → Route → Option String → State → Reply × State
unfolding method_not_allowed
put_route json (healthz ip) body s = (method_not_allowed, s)
put_route json ping body s = (method_not_allowed, s)
put_route json region_ready body s =
    put_value parse_bool (λ b. record s { region_ready = b }) body s
put_route json reaper_ready body s =
    put_value parse_bool (λ b. record s { reaper_ready = b }) body s
put_route json seeds body s = put_value json.decode_strings (λ l. record s { seeds = l }) body s
put_route json dcs body s = put_value json.decode_dcs (λ l. record s { dcs = l }) body s
put_route json region_ips body s =
    put_value json.decode_strings (λ l. record s { region_ips = l }) body s
put_route json reaper_ips body s =
    put_value json.decode_strings (λ l. record s { reaper_ips = l }) body s

-- The routes that `setupRoutes` registers without `BasicAuth`: the router answers before any guard
-- where the method is not registered.
unfoldable pub is_open : Method → Route → Bool
is_open _ (healthz _) = true
is_open _ ping = true
is_open _ _ = false

unfoldable pub authorized : UserAuth → Option UserAuth → Bool
authorized auth none = false
authorized auth (some c) = c.user == auth.user && c.password == auth.password

abbrev handle : Json → Method → Request → State → Reply × State
handle json get r s = get_route json r.route r.pod_ip s
handle json put r s = put_route json r.route r.body s

unfoldable pub serve : Json → Request → Prober → Reply × Prober
unfolding is_open authorized
serve json r p =
    if is_open r.method r.route || authorized p.auth r.credentials
    then (let (reply, s) = handle json r.method r p.state in (reply, record p { state = s }))
    else (unauthorized, p)

-- `handleUpdateBaseSecret`: the credentials follow the secret when its data changes.
unfoldable pub update_base_secret : (old_changed : Bool) (role password : String) → Prober → Prober
update_base_secret false role password p = p
update_base_secret true role password p = record p {
  auth = record { user = role; password = password };
}
