-- ===== src/Prober/Server/Guard.antt =====
-- What the HTTP interface lets through, and what it stores.
use mr_cassop.Prelude.{String, ◌≡◌, ◌≢◌, true, false, Option, none, some, arith, string_eq}
use mr_cassop.Prober.State.{State}
use mr_cassop.Prober.Server.{
  Json, UserAuth, Prober, Method, get, put, Route, healthz, ping, region_ready, reaper_ready, seeds,
  dcs, region_ips, reaper_ips, Request, unauthorized, parse_bool, format_bool, get_route, put_route,
  is_open, authorized, serve,
}

authorized_eq : (auth : UserAuth) (c : Option UserAuth) → authorized auth c ≡ true → c ≡ some auth
unfolding authorized
authorized_eq auth none h = cc
authorized_eq auth (some c) h = ground arith

-- A request for a guarded route whose credentials are not the prober's gets 401 and changes
-- nothing.
pub serve-unauthorized :
    (json : Json) (r : Request) (p : Prober)
    → is_open r.method r.route ≡ false
    → r.credentials ≢ some p.auth
    → serve json r p ≡ (unauthorized, p)
unfolding serve
serve-unauthorized json r p guarded wrong = ground (arith, authorized_eq p.auth r.credentials)

-- A PUT that does not answer 200 leaves the state as it was.
pub serve_put_failed :
    (json : Json) (r : Request) (p : Prober)
    → r.method ≡ put
    → (serve json r p).0.status ≢ 200
    → (serve json r p).1 ≡ p
unfolding serve put_route
serve_put_failed json r p m h = ground arith

-- The text that a GET of a route gives for a value that was PUT as `body`.
abbrev or_bad {ℓ} : {A : Type ℓ} → (A → String) → Option A → Option String
or_bad encode none = none
or_bad encode (some a) = some (encode a)

pub canonical : Json → Route → String → Option String
canonical json (healthz _) body = none
canonical json ping body = none
canonical json region_ready body = or_bad format_bool (parse_bool body)
canonical json reaper_ready body = or_bad format_bool (parse_bool body)
canonical json seeds body = or_bad json.encode_strings (json.decode_strings body)
canonical json dcs body = or_bad json.encode_dcs (json.decode_dcs body)
canonical json region_ips body = or_bad json.encode_strings (json.decode_strings body)
canonical json reaper_ips body = or_bad json.encode_strings (json.decode_strings body)

get_put_route :
    (json : Json) (route : Route) (pod_ip body : String) (s : State)
    → is_open put route ≡ false
    → (put_route json route (some body) s).0.status ≡ 200
    → some (get_route json route pod_ip (put_route json route (some body) s).1).0.text
      ≡ canonical json route body
unfolding put_route get_route canonical is_open
get_put_route json (healthz _) pod_ip body s o h = cc
get_put_route json ping pod_ip body s o h = cc
get_put_route json region_ready pod_ip body s o h = ground arith
get_put_route json reaper_ready pod_ip body s o h = ground arith
get_put_route json seeds pod_ip body s o h = ground arith
get_put_route json dcs pod_ip body s o h = ground arith
get_put_route json region_ips pod_ip body s o h = ground arith
get_put_route json reaper_ips pod_ip body s o h = ground arith

-- A request with the prober's credentials.
abbrev pub with_auth : Prober → Route → String → Method → Option String → Request
with_auth p route pod_ip m b = record {
  method = m;
  route = route;
  credentials = some p.auth;
  pod_ip = pod_ip;
  body = b;
}

-- A guarded route gives back what was stored: after a PUT with the prober's credentials that
-- answers 200, a GET with the same credentials answers with the stored value, encoded anew.
pub serve_put-get :
    (json : Json) (route : Route) (pod_ip body : String) (p : Prober)
    → is_open put route ≡ false
    → (serve json (with_auth p route pod_ip put (some body)) p).0.status ≡ 200
    → some
        (serve json
          (with_auth p route pod_ip get none)
          (serve json (with_auth p route pod_ip put (some body)) p).1).0.text
      ≡ canonical json route body
unfolding serve is_open authorized
serve_put-get json route pod_ip body p guarded stored =
    ground (arith, get_put_route json route pod_ip body p.state)
