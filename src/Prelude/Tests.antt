-- ===== src/Prelude/Tests.antt =====
-- Boolean tests on the native numbers, the conditional, and the bind of `Option`.
use Prim.Native.Nat.{ℕ, ◌≤◌, ◌<◌, compare, Ordering}
use mathlib.Core.Path.{◌≡◌, refl}
use mathlib.Core.Logic.{◌≢◌, ◌⊎◌, inl, inr}
use mathlib.Core.Bool.{Bool, true, false}
use mathlib.Core.Option.{Option, none, some}
use native.Mathlib.Omega.{arith}

abbrev pub ltb : ℕ → ℕ → Bool
ltb a b = elim (compare a b) [ Ordering.lt ↦ true | _ ↦ false ]

abbrev pub leb : ℕ → ℕ → Bool
leb a b = elim (compare a b) [ Ordering.gt ↦ false | _ ↦ true ]

infix 50 ◌==◌
abbrev pub ◌==◌ : ℕ → ℕ → Bool
a == b = elim (compare a b) [ Ordering.eq ↦ true | _ ↦ false ]

infix 1 if◌then◌else◌
abbrev pub if◌then◌else◌ {ℓ} : {A : Type ℓ} → Bool → A → A → A
if true then x else y = x
if false then x else y = y

pub ltb→lt : (a b : ℕ) → ltb a b ≡ true → a < b
ltb→lt a b h = ground arith

pub lt→ltb : (a b : ℕ) → a < b → ltb a b ≡ true
lt→ltb a b h = ground arith

pub le→ltb : (a b : ℕ) → b ≤ a → ltb a b ≡ false
le→ltb a b h = ground arith

pub ltb→ge : (a b : ℕ) → ltb a b ≡ false → b ≤ a
ltb→ge a b h = ground arith

pub ==_refl : (a : ℕ) → (a == a) ≡ true
==_refl a = ground arith

pub ==_ne : (a b : ℕ) → a ≢ b → (a == b) ≡ false
==_ne a b h = ground arith

pub le→leb : (a b : ℕ) → a ≤ b → leb a b ≡ true
le→leb a b h = ground arith

pub lt→leb : (a b : ℕ) → b < a → leb a b ≡ false
lt→leb a b h = ground arith

pub leb→le : (a b : ℕ) → leb a b ≡ true → a ≤ b
leb→le a b h = ground arith

pub leb→lt : (a b : ℕ) → leb a b ≡ false → b < a
leb→lt a b h = ground arith

pub ==_eq : (a b : ℕ) → a ≡ b → (a == b) ≡ true
==_eq a b h = ground arith

-- To split on a computed value and keep the equation.
pub Bool-cases : (b : Bool) → (b ≡ true) ⊎ (b ≡ false)
Bool-cases true = inl refl
Bool-cases false = inr refl

-- A chain of steps that may fail.
infixl 5 ◌>>=◌
abbrev pub ◌>>=◌ {ℓ κ} : {A : Type ℓ} {B : Type κ} → Option A → (A → Option B) → Option B
none >>= f = none
some a >>= f = f a

-- A step that gives a value, and what holds of that value.
pub data Succeeds {ℓ κ} {T : Type ℓ} (Holds : T → Type κ) : Option T → Type (ℓ ⊔ κ) where
  succeeds : {v : T} → Holds v → Succeeds Holds (some v)

module _ {ℓ κ ℓ' κ'} {T : Type ℓ} {S : Type ℓ'} {Before : S → Type κ'} {Holds : T → Type κ} where
  pub Succeeds-bind :
      {step : Option S} {next : S → Option T}
      → Succeeds Before step
      → ((v : S) → Before v → Succeeds Holds (next v))
      → Succeeds Holds (step >>= next)
  Succeeds-bind (succeeds before) after = after _ before

module _ {ℓ κ} {T : Type ℓ} {Holds : T → Type κ} where
  pub Succeeds-if :
      {s t : Option T} (test : Bool)
      → (test ≡ true → Succeeds Holds s)
      → (test ≡ false → Succeeds Holds t)
      → Succeeds Holds (if test then s else t)
  Succeeds-if false _ otherwise = otherwise refl
  Succeeds-if true then_case _ = then_case refl

  pub Succeeds-map {κ'} :
      {Weaker : T → Type κ'} {step : Option T}
      → Succeeds Holds step
      → ((v : T) → Holds v → Weaker v)
      → Succeeds Weaker step
  Succeeds-map (succeeds held) weaken = succeeds (weaken _ held)

  pub Succeeds-value : {step : Option T} → Succeeds Holds step → (v : T) × (step ≡ some v) × Holds v
  Succeeds-value (succeeds held) = (_, refl, held)
