-- ===== src/Common/Results.antt =====
-- Exceptions as values. A constructor of `Issue` is a C++ exception that the code throws or lets
-- through; the text it carries is kept where the program chooses it.
use Prim.Native.Nat.{ℕ}
use Prim.Native.String.{String}
use mathlib.Core.Path.{◌≡◌, refl}
use mathlib.Core.Bool.{Bool, true, false}
use mathlib.Core.Option.{Option, none, some}

pub data Issue : Type 0 where
  -- std::out_of_range, std::invalid_argument, std::runtime_error and std::logic_error
  out_of_range invalid_argument runtime_error logic_error : Issue
  -- boost::property_tree::ptree_bad_path and ptree_bad_data
  bad_path bad_data : Issue
  register_overflow missing_vmm_register no_such_vmm_register : String → Issue
  vmm_codec_issue vmm_channel_out_of_range : ℕ → Issue
  vmm_config_issue : Issue
  missing_i2c_address missing_i2c_register no_such_i2c_address no_such_i2c_register : String → Issue
  write_to_readonly_register : String → Issue
  board_issue : Issue
  invalid_gbtx_training_type : String → Issue
  padtrigger_config_error nsw_hw_config_issue : String → Issue
  opc_read_write_issue opc_connection_issue sca_geo_identifier_issue router_hw_issue : Issue

-- What a call gives back: the exception that ends it, or its value.
pub data Result {ℓ} (Value : Type ℓ) : Type ℓ where
  err : Issue → Result Value
  ok : Value → Result Value

infixl 5 ◌>>=◌ ◌>>◌
-- The next call gets the value; an exception goes past it.
abbrev pub ◌>>=◌ {ℓ κ} :
    {Value : Type ℓ} {Next : Type κ} → Result Value → (Value → Result Next) → Result Next
err issue >>= next = err issue
ok v >>= next = next v

-- The same where there is no value.
abbrev pub ◌>>◌ {ℓ} : {Next : Type ℓ} → Result (Unit {0}) → Result Next → Result Next
checked >> next = checked >>= λ done. next

-- if (bad) { throw e; }
abbrev pub throw_if : Bool → Issue → Result (Unit {0})
throw_if true e = err e
throw_if false e = ok tt

-- try { m } catch (const ptree_bad_path&) { throw e; }
abbrev pub rethrow_bad_path {ℓ} : {A : Type ℓ} → Result A → Issue → Result A
rethrow_bad_path (ok a) e = ok a
rethrow_bad_path (err bad_path) e = err e
rethrow_bad_path (err other) e = err other

-- m.at(k) on a map, whose lookup gave `o`.
abbrev pub at {ℓ} : {A : Type ℓ} → Option A → Result A
at none = err out_of_range
at (some a) = ok a

-- A successful sequence has a successful first part.
pub >>=-eq-ok {ℓ κ} :
    {Value : Type ℓ} {Next : Type κ} (m : Result Value) (next : Value → Result Next) {w : Next}
    → (m >>= next) ≡ ok w
    → (v : Value) × (m ≡ ok v) × (next v ≡ ok w)
>>=-eq-ok (err issue) next h = cc
>>=-eq-ok (ok v) next h = (v, refl, h)

-- What comes through the handler came from the body.
pub rethrow_bad_path-ok {ℓ} :
    {A : Type ℓ} (m : Result A) (e : Issue) {a : A} → rethrow_bad_path m e ≡ ok a → m ≡ ok a
rethrow_bad_path-ok (ok a) e h = h
rethrow_bad_path-ok (err bad_path) e h = cc
rethrow_bad_path-ok (err other) e h = cc

pub ok-injective {ℓ} : {A : Type ℓ} {a b : A} → ok a ≡ ok b → a ≡ b
ok-injective e = cc

-- One method after another on an object that each returns as it leaves it: an exception of the
-- first ends the sequence.
unfoldable pub and_then {ℓ} :
    {State : Type ℓ}
    → State × Result (Unit {0})
    → (State → State × Result (Unit {0}))
    → State × Result (Unit {0})
and_then (s, ok u) f = f s
and_then (s, err issue) f = (s, err issue)
