-- ===== src/Gbtx/Config/Bytes.antt =====
-- The loops of src/GBTxConfig.cpp, register by register.
use Prim.Native.Nat.{bit_or}
use nswconfiguration.Common.{
  ℕ, zero, suc, ◌<◌, ◌≡◌, refl, sym, ap, ◌∙◌, arith, ltb, ◌==◌, Bool, true, false, List, [], ◌∷◌,
  length, get_elem?, set, length-set, get_elem?-set_self, any, all, ◌&&◌, ◌||◌, if◌then◌else◌, some,
  Bool-cases, inl, inr,
}
use nswconfiguration.Common.Results.{Result, ok, err, and_then, out_of_range}
use nswconfiguration.Gbtx.Config.{shifted, set_register, or_into, set_loop, zero_loop}
use mathlib.Core.Path.{subst}
use mathlib.Core.Option.{some-injective}

-- Each register has a shift; both are in range.
unfoldable pub fits : List ℕ → List ℕ → Bool
fits [] shifts = true
fits (r ∷ registers) [] = false
fits (r ∷ registers) (shift ∷ shifts) = (ltb shift 8 && ltb r 436) && fits registers shifts

-- What register r becomes: the value is or-ed into it at the shift of each pair that names it.
unfoldable pub fields : ℕ → List ℕ → List ℕ → ℕ → ℕ → ℕ
fields v [] shifts r old = old
fields v (x ∷ registers) [] r old = old
fields v (x ∷ registers) (shift ∷ shifts) r old =
    fields v registers shifts r (if x == r then bit_or old (shifted v shift) else old)

pub get_elem?-some : (xs : List ℕ) (i : ℕ) → i < length xs → (b : ℕ) × (get_elem? xs i ≡ some b)
get_elem?-some [] i h = elim h [ ]
get_elem?-some (x ∷ xs) zero h = (x, refl)
get_elem?-some (x ∷ xs) (suc i) h = get_elem?-some xs i (omega arith)

pub get_elem?-set_ne :
    (xs : List ℕ) (i j v : ℕ) → (i == j) ≡ false → get_elem? (set xs i v) j ≡ get_elem? xs j
get_elem?-set_ne [] i j v h = refl
get_elem?-set_ne (x ∷ xs) zero zero v h = absurd (ground arith)
get_elem?-set_ne (x ∷ xs) zero (suc j) v h = refl
get_elem?-set_ne (x ∷ xs) (suc i) zero v h = refl
get_elem?-set_ne (x ∷ xs) (suc i) (suc j) v h = get_elem?-set_ne xs i j v (ground arith)

same_index : (i j : ℕ) → (i == j) ≡ true → i ≡ j
same_index i j h = ground arith

-- One register is changed by g, the others stay.
byte_set :
    (config : List ℕ) (g : ℕ → ℕ) (x r b old : ℕ)
    → x < length config
    → get_elem? config x ≡ some b
    → get_elem? config r ≡ some old
    → get_elem? (set config x (g b)) r ≡ some (if x == r then g old else old)
byte_set config g x r b old inside hb ho = elim (Bool-cases (x == r)) [
  | inl same ↦
      ap (get_elem? (set config x (g b))) (sym (same_index x r same))
      ∙ get_elem?-set_self config x (g b) inside
      ∙ ap (λ t. some (g t))
          (some-injective b old (sym hb ∙ ap (get_elem? config) (same_index x r same) ∙ ho))
      ∙ ap (λ t. some (if t then g old else old)) (sym same)
  | inr differ ↦
      get_elem?-set_ne config x r (g b) differ
      ∙ ho
      ∙ ap (λ t. some (if t then g old else old)) (sym differ)
]

set_register-in_range :
    (config : List ℕ) (x v shift b : ℕ)
    → (ltb shift 8 && ltb x 436) ≡ true
    → get_elem? config x ≡ some b
    → set_register config x v shift ≡ (set config x (bit_or b (shifted v shift)), ok tt)
unfolding set_register or_into
set_register-in_range config x v shift b h e = rw (shift_fits, register_fits, e) refl
  where
    shift_fits : ltb shift 8 ≡ true
    shift_fits = ground arith

    register_fits : ltb x 436 ≡ true
    register_fits = ground arith

-- Every call ends well, keeps the length, and does to each register what `after` says.
abbrev pub Does : List ℕ → (ℕ → ℕ → ℕ) → List ℕ × Result (Unit {0}) → Type 0
Does config after p =
    (p.1 ≡ ok tt)
    × (length p.0 ≡ 436)
    × ((r old : ℕ) → get_elem? config r ≡ some old → get_elem? p.0 r ≡ some (after r old))

pub set_loop-Does :
    (config : List ℕ) (v : ℕ) (registers shifts : List ℕ)
    → length config ≡ 436
    → fits registers shifts ≡ true
    → Does config (fields v registers shifts) (set_loop config v registers shifts)
unfolding fits fields set_loop and_then
set_loop-Does config v [] shifts long h = (refl, long, λ r old e. e)
set_loop-Does config v (x ∷ registers) [] long h = cc
set_loop-Does config v (x ∷ registers) (shift ∷ shifts) long h =
    let (b, e) = get_elem?-some config x (ground arith) in
    let changed = set config x (bit_or b (shifted v shift)) in
    let (done, long', after) =
      set_loop-Does changed v registers shifts (length-set config x _ ∙ long) (ground arith) in
    subst (Does config (fields v (x ∷ registers) (shift ∷ shifts)))
      (sym (
        ap (λ p. and_then p (λ c. set_loop c v registers shifts))
          (set_register-in_range config x v shift b (ground arith) e)))
      (
        done,
        long',
        λ r old eo.
            after r _
              (byte_set config (λ t. bit_or t (shifted v shift)) x r b old (ground arith) e eo),
      )

either :
    (a b : Bool) (old : ℕ) → (if b then 0 else if a then 0 else old) ≡ (if a || b then 0 else old)
either true true old = refl
either true false old = refl
either false true old = refl
either false false old = refl

-- The registers of the list become zero.
pub zero_loop-Does :
    (config : List ℕ) (registers : List ℕ)
    → length config ≡ 436
    → all (λ r. ltb r 436) registers ≡ true
    → Does config
        (λ r old. if any (λ x. x == r) registers then 0 else old)
        (zero_loop config registers)
unfolding zero_loop
zero_loop-Does config [] long h = (refl, long, λ r old e. e)
zero_loop-Does config (x ∷ registers) long h =
    let (b, e) = get_elem?-some config x (ground arith) in
    let (done, long', after) =
      zero_loop-Does (set config x 0) registers (length-set config x 0 ∙ long) (ground arith) in
    let inside : ltb x (length config) ≡ true = ground arith in
    subst (Does config (λ r old. if any (λ y. y == r) (x ∷ registers) then 0 else old))
      (ap (λ t. if t then zero_loop (set config x 0) registers else (config, err out_of_range))
        (sym inside))
      (
        done,
        long',
        λ r old eo.
            after r _ (byte_set config (λ t. 0) x r b old (ground arith) e eo)
            ∙ ap some (either (x == r) (any (λ y. y == r) registers) old),
      )
