-- ===== src/Load.antt =====
-- How loading a graph file ends: with a value, with one of the errors of pkg/graph/binary.go and
-- pkg/graph/binary_split.go, or with a panic.
use map_router.Base.{ℕ, ◌≡◌, refl, Bool, true, false}

pub data LoadError : Type 0 where
  read_header bad_magic bad_version too_many_nodes too_many_edges read_field : LoadError
  read_crc crc_mismatch nodes_mismatch edges_mismatch base_mismatch identity_mismatch : LoadError
  first_out_length head_length : LoadError
  not_monotonic head_out_of_range : ℕ → LoadError

pub data Load {ℓ} (A : Type ℓ) : Type ℓ where
  loaded : A → Load A
  failed : LoadError → Load A
  panic : Load A

infixl 5 ◌>>=◌ ◌>>◌
abbrev pub ◌>>=◌ {ℓ κ} : {A : Type ℓ} {B : Type κ} → Load A → (A → Load B) → Load B
loaded a >>= f = f a
failed e >>= f = failed e
panic >>= f = panic

abbrev pub ◌>>◌ {ℓ} : {B : Type ℓ} → Load (Unit {0}) → Load B → Load B
m >> k = m >>= λ _. k

-- `if !ok { return nil, e }`
abbrev pub require : Bool → LoadError → Load (Unit {0})
require true e = loaded tt
require false e = failed e

-- The value that a successful step hands on.
pub >>=-eq-loaded {ℓ κ} :
    {A : Type ℓ} {B : Type κ} (m : Load A) (f : A → Load B) {b : B}
    → (m >>= f) ≡ loaded b
    → (a : A) × (m ≡ loaded a) × (f a ≡ loaded b)
>>=-eq-loaded (loaded a) f h = (a, refl, h)
>>=-eq-loaded (failed e) f h = cc
>>=-eq-loaded panic f h = cc

-- If there is a value, it has the property.
abbrev pub Ensures {ℓ κ} : {A : Type ℓ} → (A → Type κ) → Load A → Type κ
Ensures P (loaded a) = P a
Ensures P _ = Unit

pub Ensures->>= {ℓ κ μ} :
    {A : Type ℓ} {B : Type κ} (P : B → Type μ) (m : Load A) (f : A → Load B)
    → ((a : A) → m ≡ loaded a → Ensures P (f a))
    → Ensures P (m >>= f)
Ensures->>= P (loaded a) f h = h a refl
Ensures->>= P (failed e) f h = tt
Ensures->>= P panic f h = tt
