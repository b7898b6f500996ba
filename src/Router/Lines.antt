-- ===== src/Router/Lines.antt =====
-- What the calls of src/hw/Router.cpp leave at the outputs of a board that answers.
use nswconfiguration.Common.{
  ℕ, zero, suc, ◌≡◌, refl, sym, ap, ◌∙◌, String, str_eq, eq_iff, Bool, true, false, ◌&&◌, List, [],
  ◌∷◌, if◌then◌else◌,
}
use nswconfiguration.Common.Results.{ok}
use nswconfiguration.Common.Actions.{Action, pass-ok, ◌>>=◌, lift}
use nswconfiguration.Router.Board.{GpioLink}
use nswconfiguration.Router.Id.{Router}
use nswconfiguration.Router.Configure.{
  pause, send_and_readback_gpio, check_loop, checks_loop, write_jtag_bitfile_configuration,
  gpio_checks, same,
}
use mathlib.Core.Path.{subst}

-- The levels after a line is written.
abbrev pub update : String → Bool → (String → Bool) → String → Bool
update name v f other = if str_eq name other then v else f other

-- A call does not throw from a state where P holds, and Q holds of its value and the state after.
abbrev pub Triple {ℓ κ} :
    {State : Type 0} {A : Type ℓ}
    → (State → Type κ)
    → Action State A
    → (A → State → Type κ)
    → Type (ℓ ⊔ κ)
Triple {A = A} P m Q = (b : _) → P b → (a : A) × ((m b).1 ≡ ok a) × Q a (m b).0

pub triple-bind {ℓ ℓ' κ} :
    {State : Type 0} {A : Type ℓ} {C : Type ℓ'} {P : State → Type κ} (Q : A → State → Type κ)
    (R : C → State → Type κ) (m : Action State A) (next : A → Action State C)
    → Triple P m Q
    → ((a : A) → Triple (Q a) (next a) R)
    → Triple P (m >>= next) R
triple-bind {C = C} Q R m next h k b p =
    let (a, e, q) = h b p in
    subst (λ s. (c : C) × (s.1 ≡ ok c) × R c s.0) (sym (pass-ok (m b) a next e)) (k a (m b).0 q)

module _ {Board : Type 0} ⦃link : GpioLink Board⦄ where
  -- The board answers, and its outputs are at the levels f.
  pub record Shows (f : String → Bool) (b : Board) : Type 0 where
    pub up : link.online b ≡ true
    pub levels : (name : String) → link.output name ≡ true → link.level b name ≡ f name

  -- A call keeps the levels.
  abbrev pub Keeps {ℓ} : {A : Type ℓ} → (String → Bool) → Action Board A → Type ℓ
  Keeps f m = Triple (Shows f) m (λ a. Shows f)

  send-Shows :
      (f : String → Bool) (name : String) (v : Bool)
      → Triple (Shows f) (link.send_gpio name v) (λ u. Shows (update name v f))
  send-Shows f name v b h = (
    tt,
    (link.send-ok b name v h.up).0,
    record { up = (link.send-ok b name v h.up).1; levels = λ other out. at_line other out },
  )
    where
      at_line :
          (other : String)
          → link.output other ≡ true
          → link.level (link.send_gpio name v b).0 other ≡ update name v f other
      at_line other out = of_test (str_eq name other) refl
        where
          of_test :
              (t : Bool)
              → str_eq name other ≡ t
              → link.level (link.send_gpio name v b).0 other ≡ (if t then v else f other)
          of_test true e =
              let it = (eq_iff name other).0 e in
              ap (link.level (link.send_gpio name v b).0) (sym it)
              ∙ link.send-level b name v h.up (ap link.output it ∙ out)
          of_test false e = link.send-level_ne b name other v out e ∙ h.levels other out

  pub read-Keeps : (f : String → Bool) (name : String) → Keeps f (link.read_gpio name)
  read-Keeps f name b h =
      let (v, e, up) = link.read-ok b name h.up in
      (
        v,
        e,
        record {
          up = up;
          levels = λ other out. link.read-level b name other out ∙ h.levels other out;
        },
      )

  pub pause-Keeps : (f : String → Bool) → Keeps f pause
  unfolding pause
  pause-Keeps f b h = (
    tt,
    refl,
    record {
      up = link.snooze-online b h.up;
      levels = λ other out. link.snooze-level b other out ∙ h.levels other out;
    },
  )

  pub lift-Keeps {ℓ} :
      {A : Type ℓ} (f : String → Bool) (a : A) → Keeps f (lift {State = Board} (ok a))
  lift-Keeps f a b h = (a, refl, h)

  pub bind-Keeps {ℓ ℓ'} :
      {A : Type ℓ} {C : Type ℓ'} (f : String → Bool) (m : Action Board A)
      (next : A → Action Board C)
      → Keeps f m
      → ((a : A) → Keeps f (next a))
      → Keeps f (m >>= next)
  bind-Keeps f m next h k = triple-bind (λ a. Shows f) (λ c. Shows f) m next h k

  pub if-Keeps {ℓ} :
      {A : Type ℓ} (f : String → Bool) (t : Bool) (m n : Action Board A)
      → Keeps f m
      → Keeps f n
      → Keeps f (if t then m else n)
  if-Keeps f true m n h k = h
  if-Keeps f false m n h k = k

  -- sendAndReadbackGPIO puts a line to a level, and keeps the others.
  pub send_and_readback_gpio-Shows :
      (f : String → Bool) (name : String) (v : Bool)
      → Triple (Shows f) (send_and_readback_gpio name v) (λ u. Shows (update name v f))
  unfolding send_and_readback_gpio
  send_and_readback_gpio-Shows f name v =
      let g = update name v f in
      triple-bind (λ u. Shows g) (λ u. Shows g) (link.send_gpio name v) _ (send-Shows f name v)
        λ u. bind-Keeps g (link.read_gpio name) _ (read-Keeps g name) (λ readback. lift-Keeps g tt)

  check_loop-Keeps :
      (f : String → Bool) (checks : List (String × Bool)) (good : Bool)
      → Keeps f (check_loop checks good)
  unfolding check_loop
  check_loop-Keeps f [] good = lift-Keeps f good
  check_loop-Keeps f ((name, exp) ∷ checks) good =
      bind-Keeps f (link.read_gpio name) _ (read-Keeps f name)
        (λ obs. check_loop-Keeps f checks (good && same obs exp))

  -- However the checks end, they keep the outputs.
  pub checks_loop-Keeps : (f : String → Bool) (left : ℕ) → Keeps f (checks_loop left)
  unfolding checks_loop
  checks_loop-Keeps f zero = lift-Keeps f false
  checks_loop-Keeps f (suc left) =
      bind-Keeps f (check_loop gpio_checks true) _ (check_loop-Keeps f gpio_checks true) λ good.
        if-Keeps f good _ _ (lift-Keeps f true)
          (bind-Keeps f pause _ (pause-Keeps f) (λ u. checks_loop-Keeps f left))

  upload_file-Keeps : (f : String → Bool) (file : String) → Keeps f (link.write_xilinx_fpga file)
  upload_file-Keeps f file b h = (
    tt,
    (link.upload-ok b file h.up).0,
    record {
      up = (link.upload-ok b file h.up).1;
      levels = λ other out. link.upload-level b file other out ∙ h.levels other out;
    },
  )

  pub upload-Keeps : (f : String → Bool) (r : Router) → Keeps f (write_jtag_bitfile_configuration r)
  unfolding write_jtag_bitfile_configuration
  upload-Keeps f r =
      if-Keeps f (str_eq r.firmware "") _ _ (lift-Keeps f tt) (upload_file-Keeps f r.firmware)
