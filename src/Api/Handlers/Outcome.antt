-- ===== src/Api/Handlers/Outcome.antt =====
-- When `HandleRoute` answers with a route.
use Prim.Native.String.{String}
use text.Mathlib.Text.{◌==◌ as str_eq}
use map_router.Base.{
  ◌≡◌, ◌↔◌, refl, Bool, true, false, not, ◌&&◌, ◌||◌, Option, none, some, arith, if◌then◌else◌,
}
use map_router.Float.{Float}
use map_router.Api.Handlers.{
  metric_time, metric_distance, RouteRequest, RouteResult, RouteResponse, Routed, Router, found,
  failed, Response, write_error, write_route, Handlers, validate_coord, route_error, route_response,
  answer, ask, metric_of, handle_request, handle_route,
}

module _ (f : Float) (h : Handlers f) (media_type : String) where
  -- What must hold of a request for a route to be its answer: JSON, both points valid, a known metric that is
  -- loaded, and a router that finds a route.
  pub record IsServed (req : RouteRequest f) (r : RouteResponse f) : Type 0 where
    pub json : str_eq media_type "application/json" ≡ true
    pub start_valid : validate_coord f req.start ≡ true
    pub end_valid : validate_coord f req.end ≡ true
    pub known :
        str_eq (metric_of f req) metric_time || str_eq (metric_of f req) metric_distance ≡ true
    pub router : Router f
    pub loaded : h.routers (metric_of f req) ≡ some router
    pub result : RouteResult f
    pub routed : router req.start req.end ≡ found result
    pub response : r ≡ record {
      total_distance_meters = result.total_distance_meters;
      segments = result.segments;
    }

  -- A route gets past the four guards only.
  gates :
      (json start end time distance : Bool) (x : Response f) (r : RouteResponse f)
      → (if not json
          then write_error 400 "invalid_request" ""
          else if not start
          then write_error 400 "invalid_coordinates" "start"
          else if not end
          then write_error 400 "invalid_coordinates" "end"
          else if not time && not distance
          then write_error 400 "invalid_request" "metric"
          else x)
        ≡ write_route r
      → (json ≡ true)
        × (start ≡ true)
        × (end ≡ true)
        × (time || distance ≡ true)
        × (x ≡ write_route r)
  gates json start end time distance x r e = ground arith

  -- A request is answered with a route exactly if it is served: every other one gets an error.
  pub handle_route-IsServed :
      (req : RouteRequest f) (r : RouteResponse f)
      → (handle_route f h media_type (some req) ≡ write_route r) ↔ IsServed req r
  unfolding handle_route handle_request ask answer route_response route_error
  handle_route-IsServed req r = (served, serves)
    where
      answered :
          (a : Routed f)
          → answer f a ≡ write_route r
          → (result : RouteResult f) × (a ≡ found result)
            × (r ≡ record {
              total_distance_meters = result.total_distance_meters;
              segments = result.segments;
            })
      answered (found result) e = (result, refl, cc)
      answered (failed err) e = absurd (ground arith)

      asked :
          (o : Option (Router f))
          → ask f o req ≡ write_route r
          → (router : Router f) × (o ≡ some router)
            × (answer f (router req.start req.end) ≡ write_route r)
      asked none e = absurd (ground arith)
      asked (some router) e = (router, refl, e)

      served : handle_route f h media_type (some req) ≡ write_route r → IsServed req r
      served e =
          let guards : (str_eq media_type "application/json" ≡ true)
              × (validate_coord f req.start ≡ true)
              × (validate_coord f req.end ≡ true)
              × (str_eq (metric_of f req) metric_time || str_eq (metric_of f req) metric_distance
                  ≡ true)
              × (ask f (h.routers (metric_of f req)) req ≡ write_route r) =
            gates _ _ _ _ _ (ask f (h.routers (metric_of f req)) req) r e in
          let (router, loaded, e') = asked (h.routers (metric_of f req)) guards.4 in
          let (result, routed, response) = answered (router req.start req.end) e' in
          record {
            json = guards.0;
            start_valid = guards.1;
            end_valid = guards.2;
            known = guards.3;
            router = router;
            loaded = loaded;
            result = result;
            routed = routed;
            response = response;
          }

      serves : IsServed req r → handle_route f h media_type (some req) ≡ write_route r
      serves s =
          let kept : not (str_eq (metric_of f req) metric_time)
                && not (str_eq (metric_of f req) metric_distance)
              ≡ false =
            let k = s.known in ground arith in
          rw (s.json, s.start_valid, s.end_valid, kept, s.loaded, s.routed, s.response) refl
