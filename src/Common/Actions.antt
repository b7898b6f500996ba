-- ===== src/Common/Actions.antt =====
-- Calls that change the state of a device and may throw: what they did before an exception stays.
use mathlib.Core.Path.{◌≡◌, ap}
use nswconfiguration.Common.Results.{Result, ok, err, ok-injective}

abbrev pub Action {ℓ κ} : Type ℓ → Type κ → Type (ℓ ⊔ κ)
Action State A = State → State × Result A

infixl 5 ◌>>=◌ ◌>>◌
module _ {ℓ} {State : Type ℓ} where
  abbrev pub pass {κ μ} :
      {A : Type κ} {B : Type μ} → State × Result A → (A → Action State B) → State × Result B
  pass (s, ok a) next = next a s
  pass (s, err issue) next = (s, err issue)

  abbrev pub ◌>>=◌ {κ μ} :
      {A : Type κ} {B : Type μ} → Action State A → (A → Action State B) → Action State B
  ◌>>=◌ m next s = pass (m s) next

  abbrev pub ◌>>◌ {κ} : {B : Type κ} → Action State (Unit {0}) → Action State B → Action State B
  ◌>>◌ m next s = pass (m s) (λ done. next)

  -- A result that needs no device.
  abbrev pub lift {κ} : {A : Type κ} → Result A → Action State A
  lift r s = (s, r)

-- A call that does not throw hands its value and the state to the next.
pub pass-ok {ℓ κ μ} :
    {State : Type ℓ} {A : Type κ} {B : Type μ} (p : State × Result A) (a : A)
    (next : A → Action State B)
    → p.1 ≡ ok a
    → pass p next ≡ next a p.0
pass-ok (s, ok b) a next h = ap (λ x. next x s) (ok-injective h)
pass-ok (s, err issue) a next h = cc
