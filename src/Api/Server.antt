-- ===== src/Api/Server.antt =====
-- `withMiddleware` of pkg/api/server.go: headers, preflight, the concurrency limiter and recovery
-- around a handler. `slots` is the number of values in the channel `sem`; a request in flight carries
-- the functions that its `defer` statements have stacked, and they run when its handler ends, in
-- whatever way. Requests start and end in any order, so the server is a step relation. Timeouts and
-- logging are left out.
pub mod Limiter
use Prim.Native.String.{String}
use text.Mathlib.Text.{◌==◌ as str_eq}
use map_router.Base.{
  ℕ, ◌≡◌, Bool, true, false, not, ◌&&◌, List, [], ◌∷◌, ◌++◌, Option, none, some, ltb, ◌==◌,
  if◌then◌else◌, ◌+◌, ◌-◌,
}

-- The configuration that the middleware reads.
pub record ServerConfig : Type 0 where
  pub max_concurrent : ℕ
  pub cors_origin : String

pub record Request : Type 0 where
  pub id : ℕ
  pub method : String

-- The two deferred functions: `<-sem`, and the recovery.
pub data Deferred : Type 0 where
  release recovery : Deferred

-- A request whose handler runs, with its deferred functions, the last one first.
pub record Flight : Type 0 where
  pub id : ℕ
  pub deferred : List Deferred

pub record Server : Type 0 where
  pub slots : ℕ
  pub running : List Flight

abbrev pub new_server : Server
new_server = record { slots = 0; running = [] }

-- What the middleware does with a request: answer the preflight, run the handler, or refuse.
pub data Admission : Type 0 where
  preflight admitted refused : Admission

-- How a handler ends: with a status, or in a panic before it has written anything.
pub data Ended : Type 0 where
  returned : ℕ → Ended
  panicked : Ended

unfoldable pub admit : ServerConfig → Server → Request → Admission
admit cfg s r =
    if not (str_eq cfg.cors_origin "") && str_eq r.method "OPTIONS"
    then preflight
    else if ltb s.slots cfg.max_concurrent
    then admitted
    else refused

-- The `defer` statements of a request that is admitted.
unfoldable pub deferred_of : List Deferred
deferred_of = recovery ∷ release ∷ []

-- `sem <- struct{}{}`, and the `defer` statements up to the handler's call.
unfoldable pub arrive : ServerConfig → Server → Request → Server
unfolding admit
arrive cfg s r = elim (admit cfg s r) [
  | admitted ↦ record {
    slots = s.slots + 1;
    running = record { id = r.id; deferred = deferred_of } ∷ s.running;
  }
  | _ ↦ s
]

-- The recovery answers 500 after a panic.
abbrev recovered : Ended → Ended
recovered (returned status) = returned status
recovered panicked = returned 500

-- The deferred functions in their order, on the slots and the outcome so far.
unfoldable pub run_deferred : List Deferred → ℕ → Ended → ℕ × Ended
run_deferred [] slots ended = (slots, ended)
run_deferred (release ∷ rest) slots ended = run_deferred rest (slots - 1) ended
run_deferred (recovery ∷ rest) slots ended = run_deferred rest slots (recovered ended)

-- The first request in flight under an id, and those in flight besides it.
abbrev pub beside : Flight → Option (Flight × List Flight) → Option (Flight × List Flight)
beside x none = none
beside x (some (y, ys)) = some (y, x ∷ ys)

unfoldable pub take_flight : ℕ → List Flight → Option (Flight × List Flight)
take_flight id [] = none
take_flight id (x ∷ xs) =
    let rest = take_flight id xs in if x.id == id then some (x, xs) else beside x rest

-- The handler of a request in flight ends: the server after it, and how the middleware ends.
abbrev end_flight : Server → Ended → Option (Flight × List Flight) → Option (Server × Ended)
end_flight s ended none = none
end_flight s ended (some (x, rest)) =
    let (slots, left) = run_deferred x.deferred s.slots ended in
    some (record { slots = slots; running = rest }, left)

unfoldable pub finish : Server → ℕ → Ended → Option (Server × Ended)
unfolding run_deferred take_flight
finish s id ended = end_flight s ended (take_flight id s.running)

-- The status of the response of a request that is not admitted.
unfoldable pub status_of : Admission → Option ℕ
status_of preflight = some 204
status_of refused = some 503
status_of admitted = none

abbrev security_headers : List (String × String)
security_headers =
    ("X-Content-Type-Options", "nosniff")
    ∷ ("X-Frame-Options", "DENY")
    ∷ ("Cache-Control", "no-store")
    ∷ []

cors_headers : ServerConfig → List (String × String)
cors_headers cfg =
    if str_eq cfg.cors_origin ""
    then []
    else ("Access-Control-Allow-Origin", cfg.cors_origin) ∷ ("Vary", "Origin") ∷ []

admission_headers : Admission → List (String × String)
admission_headers preflight =
    ("Access-Control-Allow-Methods", "GET, POST, OPTIONS")
    ∷ ("Access-Control-Allow-Headers", "Content-Type")
    ∷ ("Access-Control-Max-Age", "86400")
    ∷ []
admission_headers admitted = []
admission_headers refused = ("Retry-After", "1") ∷ []

-- The headers that the middleware sets, in the order in which it sets them.
unfoldable pub headers_of : ServerConfig → Server → Request → List (String × String)
unfolding cors_headers admission_headers
headers_of cfg s r = security_headers ++ (cors_headers cfg ++ admission_headers (admit cfg s r))

-- One event of the server: a request comes in, or the handler of one in flight ends.
pub data Step (cfg : ServerConfig) : Server → Server → Type 0 where
  arrives : (s : Server) (r : Request) → Step cfg s (arrive cfg s r)
  finishes :
      (s : Server) (id : ℕ) (ended : Ended) (t : Server) (left : Ended)
      → finish s id ended ≡ some (t, left)
      → Step cfg s t

pub data Reachable (cfg : ServerConfig) : Server → Type 0 where
  start : Reachable cfg new_server
  next : {s t : Server} → Reachable cfg s → Step cfg s t → Reachable cfg t
