-- ===== src/Examples/Access.antt =====
-- The theorems on sockets and tokens at concrete inputs.
use clutch_d_backend.Base.{
  ℕ, ◌≤◌, ◌<◌, ◌≡◌, refl, Bool, true, false, not, ◌&&◌, none, some, List, [], ◌∷◌, ◌==◌,
  if◌then◌else◌, leb, arith,
}
use clutch_d_backend.Schema.{Role}
use clutch_d_backend.Session.{err, http, ok}
use clutch_d_backend.Redis.{revoked_at}
use clutch_d_backend.Ws.Manager.{Room}
use clutch_d_backend.Ws.Clean.{IsClean, is_connected}
use clutch_d_backend.Ws.Rooms.{SocketEvent, run, replay, run_refines}
use clutch_d_backend.Auth.Tokens.{
  is_weak, Subject, TokenType, Claims, Jwt, AuthSettings, create_access_token, decode_token,
}
use clutch_d_backend.Auth.Access.{
  active_user, AuthRequest, authenticate_ws, get_current_user, logout, refresh_token, is_revoked,
  user_of_token, credentials_or,
}
use clutch_d_backend.Auth.Calls.{Call, at, serve_all}
use clutch_d_backend.Auth.Revoked.{DecodesJose, logout_forever}
use clutch_d_backend.Auth.Issued.{RoundTrips, answer, create_access_token_lem, refresh_token_twice}
use clutch_d_backend.Examples.Samples.{customer, world}

abbrev rooms : List Room
rooms = record { key = 1; sockets = 7 ∷ 8 ∷ [] } ∷ record { key = 2; sockets = 9 ∷ [] } ∷ []

rooms-IsClean : IsClean rooms
rooms-IsClean = (refl, (λ e. cc), (refl, (refl, tt)), (refl, (λ e. cc), (refl, tt), tt))

abbrev reachable : ℕ → Bool
reachable ws = not (ws == 8)

abbrev events : List SocketEvent
events = SocketEvent.joins 3 5 ∷ SocketEvent.sends 1 reachable ∷ SocketEvent.leaves 2 9 ∷ []

run_refines_example :
    IsClean (run events rooms)
    × ((k v : ℕ)
        → is_connected k v (run events rooms) ≡ replay events (λ i u. is_connected i u rooms) k v)
run_refines_example = run_refines events rooms rooms-IsClean

-- A library whose only token stands for these claims.
abbrev pub jwt_of : Claims → Jwt
jwt_of c = record {
  encode = λ secret claims. "token";
  decode = λ secret issuer audience now token. if leb now c.exp then some c else none;
  sha256 = λ s. s;
}

jwt_of-DecodesJose : (c : Claims) → DecodesJose (jwt_of c)
jwt_of-DecodesJose c = record {
  same = λ secret iss aud t now later a b h k. ground arith;
  lives = λ secret iss aud t now a h. ground arith;
}

abbrev pub settings : AuthSettings
settings = record {
  debug = false;
  jwt_secret_key = "secret";
  access_token_expire_minutes = 30;
  refresh_token_expire_days = 7;
}

abbrev pub access : Claims
access = record {
  sub = Subject.of_user 1;
  exp = 1001800;
  iss = "clutchd";
  aud = "clutchd-api";
  type = TokenType.access;
  jti = some 1000;
  role = some Role.customer;
}

abbrev refresh : Claims
refresh = record access { type = TokenType.refresh; role = none; exp = 1604800 }

abbrev request : AuthRequest
request = record {
  credentials = some "token";
  bearer = some "token";
  access_cookie = none;
  refresh_cookie = none;
  x_refresh_token = none;
}

abbrev calls : List Call
calls = Call.refreshes 1000010 true request ∷ Call.writes 1000020 (λ db. db) ∷ []

access_decoded :
    decode_token (at (jwt_of access) settings 1000000 true) "token" TokenType.access ≡ some access
unfolding decode_token
access_decoded = refl

logout_forever_example :
    let after =
      serve_all
        (jwt_of access)
        settings
        calls
        (logout (at (jwt_of access) settings 1000000 true) request world).1 in
    (authenticate_ws (at (jwt_of access) settings 1000030 true) (some "token") after ≡ none)
    × ((other : AuthRequest)
        → credentials_or other.credentials other.access_cookie ≡ some "token"
        → get_current_user (at (jwt_of access) settings 1000030 true) other after
          ≡ (err (http 401), after))
logout_forever_example =
    logout_forever (jwt_of access) settings (jwt_of-DecodesJose access) request "token" access 1000
      1000000 1000030 calls world refl access_decoded refl (omega arith)
      (omega arith, (omega arith, omega arith))

early_leb : (a b : ℕ) → a ≤ b → leb a b ≡ true
early_leb a b h = ground arith

-- The id that the world gives next is not revoked.
not_revoked :
    is_revoked
      (record (at (jwt_of access) settings 1000000 true) { now = 1000900 })
      (some 1000)
      world
    ≡ false
unfolding is_revoked revoked_at
not_revoked = refl

pub secret_fine : not settings.debug && is_weak (jwt_of access) "secret" ≡ false
unfolding is_weak
secret_fine = refl

access_round : RoundTrips (jwt_of access) "secret" access
access_round now early = rw (early_leb now 1001800 early) refl

create_access_token_lem_example :
    let auth = at (jwt_of access) settings 1000000 true in
    let soon = record auth { now = 1000900 } in
    ((create_access_token auth 1 Role.customer world).0 ≡ ok "token")
    × (1000900 ≤ 1001800 → user_of_token soon (some "token") world ≡ some customer)
    × (1001800 < 1000900 → user_of_token soon (some "token") world ≡ none)
    × (decode_token soon "token" TokenType.refresh ≡ none)
create_access_token_lem_example =
    create_access_token_lem (at (jwt_of access) settings 1000000 true) 1000900
      (jwt_of-DecodesJose access) customer world world secret_fine access_round refl not_revoked

refresh_decoded :
    (now : ℕ)
    → leb now 1604800 ≡ true
    → decode_token (at (jwt_of refresh) settings now true) "token" TokenType.refresh ≡ some refresh
unfolding decode_token
refresh_decoded now early = rw early refl

abbrev more : List Call
more = Call.writes 1000020 (λ db. db) ∷ []

still_there :
    active_user 1
      (serve_all
        (jwt_of refresh)
        settings
        more
        (refresh_token (at (jwt_of refresh) settings 1000000 true) request world).1).db
    ≡ some customer
unfolding refresh_token decode_token is_weak
still_there = refl

fine_again : not settings.debug && is_weak (jwt_of refresh) "secret" ≡ false
unfolding is_weak
fine_again = refl

refresh_token_twice_example :
    let jwt = jwt_of refresh in
    let first = refresh_token (at jwt settings 1000000 true) request world in
    let after = serve_all jwt settings more first.1 in
    (first.0 ≡ answer jwt settings customer refresh request "token" 1000000 world)
    × (is_revoked (at jwt settings 1000030 true) (some 1000) after ≡ true)
    × ((refresh_token (at jwt settings 1000030 true) request after).0
        ≡ answer jwt settings customer refresh request "token" 1000030 after)
refresh_token_twice_example =
    refresh_token_twice (jwt_of refresh) settings customer refresh request "token"
      (jwt_of-DecodesJose refresh) 1000 1000000 1000030 more world refl
      (refresh_decoded 1000000 refl) (refresh_decoded 1000030 refl) refl refl (omega arith) refl
      still_there fine_again (omega arith, omega arith)
