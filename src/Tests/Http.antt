-- ===== src/Tests/Http.antt =====
-- A server with a time router only, and a limit of one request.
use Prim.Native.String.{String}
use text.Mathlib.Text.{◌==◌ as str_eq}
use map_router.Base.{
  ℕ, ◌≤◌, ◌≡◌, ◌↔◌, refl, true, any_of, false, not, ◌&&◌, [], ◌∷◌, none, some, length,
  if◌then◌else◌,
}
use map_router.Api.Handlers.{
  RouteRequest, RouteResult, RouteResponse, found, write_route, Handlers, handle_route,
}
use map_router.Api.Handlers.Outcome.{IsServed, handle_route-IsServed}
use map_router.Api.Server.{
  ServerConfig, Request, Server, panicked, refused, deferred_of, admit, arrive, new_server,
  Reachable, start, next, arrives,
}
use map_router.Api.Server.Limiter.{has_id, IsFinished, admit-limit, finish-release}
use map_router.Tests.Floats.{nat_float}

abbrev short_route : RouteResult nat_float
short_route = record { total_distance_meters = 12; duration_seconds = 3; segments = [] }

abbrev handlers : Handlers nat_float
handlers = record {
  routers = λ m. if str_eq m "time" then some (λ from_point to_point. found short_route) else none;
}

abbrev request : String → RouteRequest nat_float
request m = record {
  start = record { lat = 0; lng = 100 };
  end = record { lat = 0; lng = 101 };
  metric = m;
}

abbrev short_response : RouteResponse nat_float
short_response = record { total_distance_meters = 12; segments = [] }

handle_route-IsServed_example :
    (handle_route nat_float handlers "application/json" (some (request ""))
      ≡ write_route short_response)
    ↔ IsServed nat_float handlers "application/json" (request "") short_response
handle_route-IsServed_example =
    handle_route-IsServed nat_float handlers "application/json" (request "") short_response

abbrev config : ServerConfig
config = record { max_concurrent = 1; cors_origin = "" }

abbrev post : ℕ → Request
post i = record { id = i; method = "POST" }

abbrev busy : Server
busy = record { slots = 1; running = record { id = 7; deferred = deferred_of } ∷ [] }

busy_reached : Reachable config busy
unfolding arrive admit
busy_reached = next start (arrives new_server (post 7))

busy_refuses : admit config busy (post 8) ≡ refused
unfolding admit
busy_refuses = refl

admit-limit_example :
    (busy.slots ≡ length busy.running)
    × (length busy.running ≤ 1)
    × (admit config busy (post 8) ≡ refused
        → (length busy.running ≡ 1) × (not (str_eq "" "") && str_eq "POST" "OPTIONS" ≡ false))
admit-limit_example = admit-limit config busy (post 8) busy_reached

busy_holds : any_of (has_id 7) busy.running ≡ true
busy_holds = refl

finish-release_example : (t : Server) × IsFinished busy 7 panicked t
finish-release_example = finish-release config busy 7 panicked busy_reached busy_holds
