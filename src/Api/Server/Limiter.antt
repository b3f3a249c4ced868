-- ===== src/Api/Server/Limiter.antt =====
-- The limiter holds at most `MaxConcurrent` requests, refuses only when it holds that many, and gets
-- every slot back.
use text.Mathlib.Text.{◌==◌ as str_eq}
use mathlib.Core.List.Perm
use map_router.Base.{
  ℕ, suc, subst, ◌+◌, ◌-◌, ◌≤◌, ◌≡◌, refl, sym, ◌∙◌, Bool, true, false, not, ◌&&◌, List, [], ◌∷◌,
  none, some, Perm, arith, length, any_of, any_of-perm, ◌==◌, Bool-cases, inl, inr,
}
use map_router.Array.{length-perm}
use map_router.Api.Server.{
  ServerConfig, Request, Deferred, Flight, Server, Ended, returned, panicked, refused, admit,
  arrive, deferred_of, release, recovery, run_deferred, take_flight, finish, arrives, finishes,
  Reachable, start, next,
}

abbrev pub has_id : ℕ → Flight → Bool
has_id id x = x.id == id

-- What `take_flight` finds.
record IsTaken (id : ℕ) (xs : List Flight) (x : Flight) (rest : List Flight) : Type 0 where
  own : x.id ≡ id
  split : Perm (x ∷ rest) xs

beside-IsTaken :
    {id : ℕ} {xs : List Flight} (y x : Flight) (rest : List Flight)
    → IsTaken id xs x rest
    → IsTaken id (y ∷ xs) x (y ∷ rest)
beside-IsTaken y x rest t = record {
  own = t.own;
  split = Perm.trans (Perm.swap y x rest) (Perm.cons y t.split);
}

take_flight-IsTaken :
    (id : ℕ) (xs : List Flight)
    → any_of (has_id id) xs ≡ true
    → (x : Flight) × ((rest : List Flight) × (take_flight id xs ≡ some (x, rest))
        × IsTaken id xs x rest)
unfolding take_flight
take_flight-IsTaken id [] h = cc
take_flight-IsTaken id (y ∷ xs) h = elim (Bool-cases (y.id == id)) [
  | inl same ↦ (y, (xs, rw same refl, record { own = ground arith; split = Perm.refl (y ∷ xs) }))
  | inr other ↦
      let (x, (rest, e, t)) = take_flight-IsTaken id xs (rw other at h) in
      (x, (y ∷ rest, rw (other, e) refl, beside-IsTaken y x rest t))
]

take_flight-none :
    (id : ℕ) (xs : List Flight) → any_of (has_id id) xs ≡ false → take_flight id xs ≡ none
unfolding take_flight
take_flight-none id [] h = refl
take_flight-none id (y ∷ xs) h =
    let (apart, rest) : ((y.id == id) ≡ false) × (any_of (has_id id) xs ≡ false) = ground arith in
    rw (apart, take_flight-none id xs rest) refl

-- Whether one of the two deferred functions is missing.
is_leaky : List Deferred → Bool
is_leaky (recovery ∷ release ∷ []) = false
is_leaky _ = true

-- A slot is taken for every request in flight, and each of them is going to give its slot back.
record IsServing (cfg : ServerConfig) (s : Server) : Type 0 where
  few : s.slots ≤ cfg.max_concurrent
  owned : s.slots ≡ length s.running
  tight : any_of (λ x. is_leaky x.deferred) s.running ≡ false

-- How the middleware ends: a handler's panic ends there.
abbrev pub served : Ended → Ended
served (returned status) = returned status
served panicked = returned 500

run_deferred-tight :
    (deferred : List Deferred) (slots : ℕ) (ended : Ended)
    → is_leaky deferred ≡ false
    → run_deferred deferred slots ended ≡ (slots - 1, served ended)
unfolding run_deferred is_leaky
run_deferred-tight (recovery ∷ release ∷ []) slots (returned k) h = refl
run_deferred-tight (recovery ∷ release ∷ []) slots panicked h = refl
run_deferred-tight [] slots ended h = cc
run_deferred-tight (release ∷ ds) slots ended h = cc
run_deferred-tight (recovery ∷ []) slots ended h = cc
run_deferred-tight (recovery ∷ recovery ∷ ds) slots ended h = cc
run_deferred-tight (recovery ∷ release ∷ d ∷ ds) slots ended h = cc

finish-none :
    (s : Server) (id : ℕ) (ended : Ended)
    → any_of (has_id id) s.running ≡ false
    → finish s id ended ≡ none
unfolding finish
finish-none s id ended h = rw (take_flight-none id s.running h) refl

-- The request under `id` has ended: the middleware has answered, and its slot is free again.
pub record IsFinished (s : Server) (id : ℕ) (ended : Ended) (t : Server) : Type 0 where
  pub flight : Flight
  pub own : flight.id ≡ id
  pub others : Perm (flight ∷ t.running) s.running
  pub freed : t.slots + 1 ≡ s.slots
  pub owned : t.slots ≡ length t.running
  pub ends : finish s id ended ≡ some (t, served ended)

module _ (cfg : ServerConfig) where
  finish-IsFinished :
      (s : Server) (id : ℕ) (ended : Ended)
      → IsServing cfg s
      → any_of (has_id id) s.running ≡ true
      → (t : Server) × IsFinished s id ended t × IsServing cfg t
  unfolding finish
  finish-IsFinished s id ended w h =
      let (x, (rest, e, taken)) = take_flight-IsTaken id s.running h in
      let size : suc (length rest) ≡ length s.running = length-perm taken.split in
      let (here, there) : (is_leaky x.deferred ≡ false)
          × (any_of (λ y. is_leaky y.deferred) rest ≡ false) =
        let all = any_of-perm (λ y. is_leaky y.deferred) taken.split ∙ w.tight in ground arith in
      let t : Server = record { slots = s.slots - 1; running = rest } in
      (
        t,
        record {
          flight = x;
          own = taken.own;
          others = taken.split;
          freed = omega (arith, w.owned);
          owned = omega (arith, w.owned);
          ends = rw (e, run_deferred-tight x.deferred s.slots ended here) refl;
        },
        record { few = omega (arith, w.few); owned = omega (arith, w.owned); tight = there },
      )

  arrive-IsServing : (s : Server) (r : Request) → IsServing cfg s → IsServing cfg (arrive cfg s r)
  unfolding arrive admit deferred_of is_leaky
  arrive-IsServing s r w = record {
    few = ground (arith, w.few);
    owned = ground (arith, w.owned);
    tight = ground (arith, w.tight);
  }

  finishes-IsServing :
      (s : Server) (id : ℕ) (ended : Ended) (t : Server) (left : Ended)
      → finish s id ended ≡ some (t, left)
      → IsServing cfg s
      → IsServing cfg t
  finishes-IsServing s id ended t left e w = elim (Bool-cases (any_of (has_id id) s.running)) [
    | inl there ↦
        let (u, done, serving) = finish-IsFinished s id ended w there in
        let same : t ≡ u = let both = sym e ∙ done.ends in cc in
        subst (IsServing cfg) (sym same) serving
    | inr gone ↦ absurd (let nothing = finish-none s id ended gone in cc)
  ]

  Reachable-IsServing : {s : Server} → Reachable cfg s → IsServing cfg s
  Reachable-IsServing start = record { few = omega arith; owned = refl; tight = refl }
  Reachable-IsServing (next r (arrives s q)) = arrive-IsServing s q (Reachable-IsServing r)
  Reachable-IsServing (next r (finishes s id ended t left e)) =
      finishes-IsServing s id ended t left e (Reachable-IsServing r)

  -- In every state that the server reaches, whatever the order of its events, at most
  -- `MaxConcurrent` slots are taken, as many as requests are in flight; and a request is refused
  -- there only if it is no preflight and exactly so many are.
  pub admit-limit :
      (s : Server) (r : Request)
      → Reachable cfg s
      → (s.slots ≡ length s.running)
        × (length s.running ≤ cfg.max_concurrent)
        × (admit cfg s r ≡ refused
            → (length s.running ≡ cfg.max_concurrent)
              × (not (str_eq cfg.cors_origin "") && str_eq r.method "OPTIONS" ≡ false))
  unfolding admit
  admit-limit s r reached =
      let w = Reachable-IsServing reached in
      (w.owned, omega (arith, w.few, w.owned), λ e. ground (arith, w.few, w.owned))

  -- In every state that the server reaches, the handler of a request in flight may return, or panic
  -- with nothing written: the middleware then ends with the handler's status, or with 500 after the
  -- panic, the request's slot is free again, and the other requests in flight keep theirs.
  pub finish-release :
      (s : Server) (id : ℕ) (ended : Ended)
      → Reachable cfg s
      → any_of (has_id id) s.running ≡ true
      → (t : Server) × IsFinished s id ended t
  finish-release s id ended reached h =
      let (t, done, _) = finish-IsFinished s id ended (Reachable-IsServing reached) h in (t, done)
