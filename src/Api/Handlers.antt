-- ===== src/Api/Handlers.antt =====
-- pkg/api/handlers.go and pkg/api/models.go: `HandleRoute` from the request's media type and decoded
-- body to the response. `mime.ParseMediaType` and the JSON decoder, which limits the body to 1024
-- bytes, are parameters: their results are arguments. A router is a function.
pub mod Outcome
use Prim.Native.String.{String}
use text.Mathlib.Text.{◌==◌ as str_eq}
use map_router.Base.{
  ℕ, Bool, true, false, not, ◌&&◌, ◌||◌, List, [], ◌∷◌, Option, none, some, map, if◌then◌else◌,
}
use map_router.Run.{Run, ok, panic}
use map_router.Float.{Float}

abbrev pub metric_time : String
metric_time = "time"

abbrev pub metric_distance : String
metric_distance = "distance"

-- What `errors.Is` says of an error of the router.
pub record RouteError : Type 0 where
  pub is_point_too_far : Bool
  pub is_no_route : Bool
  pub is_canceled : Bool
  pub is_deadline_exceeded : Bool

module _ (f : Float) where
  open f use {F, of_ratio, neg, lt, is_nan, is_inf}

  pub record LatLng : Type 0 where
    pub lat : F
    pub lng : F

  -- `RouteRequest`; an absent metric is the empty text.
  pub record RouteRequest : Type 0 where
    pub start : LatLng
    pub end : LatLng
    pub metric : String

  pub record Segment : Type 0 where
    pub distance_meters : F
    pub geometry : List LatLng

  pub record RouteResult : Type 0 where
    pub total_distance_meters : F
    pub duration_seconds : F
    pub segments : List Segment

  pub record RouteResponse : Type 0 where
    pub total_distance_meters : F
    pub segments : List Segment

  pub data Routed : Type 0 where
    found : RouteResult → Routed
    failed : RouteError → Routed

  abbrev pub Router : Type 0
  Router = LatLng → LatLng → Routed

  -- The status and the body that is written: an error code with its field, or a route.
  pub data Response : Type 0 where
    write_error : ℕ → String → String → Response
    write_route : RouteResponse → Response

  pub record Handlers : Type 0 where
    pub routers : String → Option Router

  -- `NewHandlersMulti`
  unfoldable pub new_handlers_multi : (String → Option Router) → Run Handlers
  new_handlers_multi routers = elim (routers metric_time) [
    | none ↦ panic
    | some r ↦ ok (record { routers = routers })
  ]

  -- `validateCoord` returns no error.
  pub validate_coord : LatLng → Bool
  validate_coord p =
      let ninety = of_ratio 90 1 in
      let half_turn = of_ratio 180 1 in
      if is_nan p.lat || is_nan p.lng || is_inf p.lat || is_inf p.lng
      then false
      else not (
          lt p.lat (neg ninety)
          || lt ninety p.lat
          || lt p.lng (neg half_turn)
          || lt half_turn p.lng)

  route_error : RouteError → Response
  route_error e =
      if e.is_point_too_far
      then write_error 422 "point_too_far_from_road" ""
      else if e.is_no_route
      then write_error 404 "no_route_found" ""
      else if e.is_canceled || e.is_deadline_exceeded
      then write_error 503 "request_timeout" ""
      else write_error 500 "internal_error" ""

  -- The response is built segment by segment; the duration is left out.
  route_response : RouteResult → RouteResponse
  route_response r = record {
    total_distance_meters = r.total_distance_meters;
    segments = r.segments;
  }

  answer : Routed → Response
  answer (found r) = write_route (route_response r)
  answer (failed e) = route_error e

  ask : Option Router → RouteRequest → Response
  ask none req = write_error 400 "metric_unavailable" "metric"
  ask (some router) req = answer (router req.start req.end)

  abbrev pub metric_of : RouteRequest → String
  metric_of req = if str_eq req.metric "" then metric_time else req.metric

  handle_request : Handlers → Option RouteRequest → Response
  handle_request h none = write_error 400 "invalid_request" ""
  handle_request h (some req) =
      let metric = metric_of req in
      if not (validate_coord req.start)
      then write_error 400 "invalid_coordinates" "start"
      else if not (validate_coord req.end)
      then write_error 400 "invalid_coordinates" "end"
      else if not (str_eq metric metric_time) && not (str_eq metric metric_distance)
      then write_error 400 "invalid_request" "metric"
      else ask (h.routers metric) req

  -- `HandleRoute`
  pub handle_route : Handlers → String → Option RouteRequest → Response
  handle_route h media_type body =
      if not (str_eq media_type "application/json")
      then write_error 400 "invalid_request" ""
      else handle_request h body
