-- ===== src/Base/Run.antt =====
-- A method call: it reads and writes the object's state, and returns or raises. What was written
-- before a raise stays written, so both ends of a call carry the state.
use mathlib.Core.Path.{◌≡◌, refl}
use mathlib.Core.Bool.{Bool}
use mathlib.Core.Option.{Option, none, some}
use mini_corundum.Base.Tests.{if◌then◌else◌}

-- the exceptions that the code can raise
pub data Error : Type 0 where
  struct_error key_error index_error zero_division runtime_error value_error os_error : Error

pub data Outcome (S A : Type 0) : Type 0 where
  ok : A → S → Outcome S A
  raised : Error → S → Outcome S A

abbrev pub Action : Type 0 → Type 0 → Type 0
Action S A = S → Outcome S A

infixl 5 ◌>>=◌ ◌>>◌
abbrev pub ◌>>=◌ : {S A B : Type 0} → Action S A → (A → Action S B) → Action S B
◌>>=◌ m f s = elim (m s) [ ok a s' ↦ f a s' | raised e s' ↦ raised e s' ]

abbrev pub ◌>>◌ : {S A B : Type 0} → Action S A → Action S B → Action S B
m >> k = m >>= λ _. k

module _ {S : Type 0} where
  abbrev pub pure : {A : Type 0} → A → Action S A
  pure a s = ok a s

  abbrev pub raise : {A : Type 0} → Error → Action S A
  raise e s = raised e s

  abbrev pub get : Action S S
  get s = ok s s

  abbrev pub modify : (S → S) → Action S (Unit {0})
  modify f s = ok tt (f s)

  abbrev pub or_raise : {A : Type 0} → Option A → Error → Action S A
  or_raise none e s = raised e s
  or_raise (some a) e s = ok a s

  abbrev pub when : Bool → Action S (Unit {0}) → Action S (Unit {0})
  when b m s = if b then m s else ok tt s

-- The call returns, with a value and a state that satisfy `P`.
pub data Returns {κ} {S A : Type 0} (P : A → S → Type κ) : Outcome S A → Type κ where
  returns : {a : A} {s : S} → P a s → Returns P (ok a s)

module _ {κ} {S A : Type 0} {P : A → S → Type κ} where
  pub Returns-map {μ} :
      {Q : A → S → Type μ} {r : Outcome S A}
      → Returns P r
      → ((a : A) (s : S) → P a s → Q a s)
      → Returns Q r
  Returns-map (returns p) k = returns (k _ _ p)

  pub Returns-inv : {r : Outcome S A} → Returns P r → (a : A) × (s : S) × (r ≡ ok a s) × P a s
  Returns-inv (returns p) = (_, _, refl, p)

  pub Returns-bind {μ} :
      {B : Type 0} {Q : B → S → Type μ} (m : Action S A) (f : A → Action S B) {s : S}
      → Returns P (m s)
      → ((a : A) (s' : S) → P a s' → Returns Q (f a s'))
      → Returns Q ((m >>= f) s)
  Returns-bind m f {s} h k = rw ((Returns-inv h).2, ◌>>=◌) (k _ _ (Returns-inv h).3)

-- a fact about a call, and the outcome that it is about
pub Returns-at :
    {S A : Type 0} {P : A → S → Type 0} {r : Outcome S A}
    → Returns P r
    → Returns (λ a s. P a s × (r ≡ ok a s)) r
Returns-at (returns p) = returns (p, refl)

-- two facts about one call
pub Returns-and :
    {S A : Type 0} {P Q : A → S → Type 0} {r : Outcome S A}
    → Returns P r
    → Returns Q r
    → Returns (λ a s. P a s × Q a s) r
Returns-and (returns p) (returns q) = returns (p, q)
