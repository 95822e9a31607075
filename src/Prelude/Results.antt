-- ===== src/Prelude/Results.antt =====
-- Panics as values. A panic unwinds the simulation, so no state comes back with it.
use mathlib.Core.Bool.{Bool, true, false}
use mathlib.Core.Path.{◌≡◌, refl}
use mathlib.Core.Logic.{◌⊎◌, inl, inr}

pub data Panic : Type 0 where
  -- `unreachable!()`, an `unwrap` of `None`, a failed `assert!`: the program's own invariants
  unreachable unwrap_none assert_failed : Panic
  -- panics that the interface announces
  node_stopped shutting_down out_of_range overflow diverged already_borrowed : Panic
  -- a loop of the model without fuel
  out_of_fuel : Panic
  -- a pointer that no operation handed out: safe Rust has none
  dangling : Panic

-- What a Rust function comes to: its value, or a panic.
pub data Result {ℓ} (T : Type ℓ) : Type ℓ where
  ok : T → Result T
  panic : Panic → Result T

-- It gives a value, and does not panic.
abbrev pub Returns {ℓ} : {T : Type ℓ} → Result T → Type ℓ
Returns {T} r = (v : T) × (r ≡ ok v)

module _ {ℓ} {T : Type ℓ} where
  pub Result-cases : (r : Result T) → ((v : T) × (r ≡ ok v)) ⊎ ((why : Panic) × (r ≡ panic why))
  Result-cases (ok v) = inl (v, refl)
  Result-cases (panic why) = inr (why, refl)

  module _ {κ} {U : Type κ} where
    -- One statement after another.
    infixl 5 ◌>>=◌
    abbrev pub ◌>>=◌ : Result T → (T → Result U) → Result U
    ok v >>= continue = continue v
    panic why >>= continue = panic why

    -- A sequence that returns went through its first statement.
    pub parts_of_ok :
        (first : Result T) (continue : T → Result U) {u : U}
        → (first >>= continue) ≡ ok u
        → (v : T) × (first ≡ ok v) × (continue v ≡ ok u)
    parts_of_ok (ok v) continue returns = (v, refl, returns)
    parts_of_ok (panic why) continue returns = cc

-- `assert!(test)`, with the panic that it raises.
abbrev pub assert : Bool → Panic → Result (Unit {0})
assert test why = elim test [ true ↦ ok tt | false ↦ panic why ]

infixl 5 ◌>>◌
abbrev pub ◌>>◌ {κ} : {U : Type κ} → Result (Unit {0}) → Result U → Result U
checked >> continue = checked >>= λ _. continue
