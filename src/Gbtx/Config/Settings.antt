-- ===== src/Gbtx/Config/Settings.antt =====
-- set and reset of src/GBTxConfig.cpp over the compiled table: they never throw at a known name, and
-- each register is described by itself.
use nswconfiguration.Common.{
  ℕ, zero, suc, ◌≡◌, refl, sym, ap, ◌∙◌, arith, ltb, ◌==◌, String, str_eq, Bool, true, List, [],
  ◌∷◌, length, get_elem?, any, all, All, if◌then◌else◌, Option, some, none, Bool-cases, inl, inr,
}
use nswconfiguration.Common.Results.{Result, ok, err, and_then}
use nswconfiguration.Common.Assoc.{Assoc, lookup, lookup-cons, lookup_empty}
use nswconfiguration.Gbtx.Map.{RegMap}
use nswconfiguration.Gbtx.Maps.{compiled_gbtx_register_map}
use nswconfiguration.Gbtx.Config.{
  GbtxConfig, gbtx_config, with_config, set_found, set_setting, reset_found, reset, resets,
}
use nswconfiguration.Gbtx.Config.Bytes.{fits, fields, Does, set_loop-Does, zero_loop-Does}
use mathlib.Core.Option
use mathlib.Core.Path.{subst}
use mathlib.Core.Option.{some-injective}

-- An object over the compiled table, with its 436 bytes.
pub record IsGbtx (c : GbtxConfig) : Type 0 where
  pub maps : c.register_maps ≡ compiled_gbtx_register_map
  pub long : length c.config ≡ 436

gbtx_config-IsGbtx : IsGbtx gbtx_config
unfolding gbtx_config
gbtx_config-IsGbtx = record { maps = refl; long = refl }

setting_fits : RegMap → Bool
setting_fits rg = fits rg.registers rg.shifts

table_fits : all (λ e. setting_fits e.1) compiled_gbtx_register_map ≡ true
unfolding setting_fits compiled_gbtx_register_map fits
table_fits = refl

found_fits :
    (table : Assoc RegMap) (name : String) {rg : RegMap}
    → all (λ e. setting_fits e.1) table ≡ true
    → lookup name table ≡ some rg
    → setting_fits rg ≡ true
found_fits [] name h e = cc (lookup_empty {V = RegMap} name)
found_fits ((key, own) ∷ table) name {rg} h e = elim (Bool-cases (str_eq key name)) [
  | inl same ↦
      subst (λ t. setting_fits t ≡ true)
        (some-injective own rg (
          ap (λ b. if b then some own else lookup name table) (sym same)
          ∙ sym (lookup-cons name key own table)
          ∙ e))
        (ground arith)
  | inr differ ↦ found_fits table name (ground arith) (
      ap (λ b. if b then some own else lookup name table) (sym differ)
      ∙ sym (lookup-cons name key own table)
      ∙ e)
]

fits-all :
    (registers shifts : List ℕ)
    → fits registers shifts ≡ true
    → all (λ r. ltb r 436) registers ≡ true
unfolding fits
fits-all [] shifts h = refl
fits-all (r ∷ registers) [] h = cc
fits-all (r ∷ registers) (shift ∷ shifts) h = ground (arith, fits-all registers shifts)

-- A call that does not throw, keeps the object over the table and its type, and makes of each
-- register what `after` says.
abbrev pub Changes : GbtxConfig → (ℕ → ℕ → ℕ) → GbtxConfig × Result (Unit {0}) → Type 0
Changes c after p =
    (p.1 ≡ ok tt)
    × IsGbtx p.0
    × (p.0.gbtx_type ≡ c.gbtx_type)
    × ((r : ℕ) → get_elem? p.0.config r ≡ Option.map (after r) (get_elem? c.config r))

-- The same with the bytes that there are.
abbrev pub Changing : GbtxConfig → (ℕ → ℕ → ℕ) → GbtxConfig × Result (Unit {0}) → Type 0
Changing c after p =
    (p.1 ≡ ok tt)
    × IsGbtx p.0
    × (p.0.gbtx_type ≡ c.gbtx_type)
    × ((r old : ℕ) → get_elem? c.config r ≡ some old → get_elem? p.0.config r ≡ some (after r old))

missing_after :
    (xs ys : List ℕ) (r : ℕ) → length xs ≡ length ys → get_elem? xs r ≡ none → get_elem? ys r ≡ none
missing_after [] [] r same h = refl
missing_after [] (y ∷ ys) r same h = absurd (omega arith)
missing_after (x ∷ xs) [] r same h = refl
missing_after (x ∷ xs) (y ∷ ys) zero same h = cc
missing_after (x ∷ xs) (y ∷ ys) (suc r) same h = missing_after xs ys r (omega arith) h

mapped :
    (f : ℕ → ℕ) (o q : Option ℕ)
    → ((old : ℕ) → o ≡ some old → q ≡ some (f old))
    → (o ≡ none → q ≡ none)
    → q ≡ Option.map f o
mapped f none q there gone = gone refl
mapped f (some old) q there gone = there old refl

pub Changing-Changes :
    (c : GbtxConfig) (after : ℕ → ℕ → ℕ) (p : GbtxConfig × Result (Unit {0}))
    → IsGbtx c
    → Changing c after p
    → Changes c after p
Changing-Changes c after p good (done, good', type, bytes) = (
  done,
  good',
  type,
  λ r.
      mapped (after r) (get_elem? c.config r) (get_elem? p.0.config r) (bytes r)
        (missing_after c.config p.0.config r (good.long ∙ sym good'.long)),
)

with_config-Changing :
    (c : GbtxConfig) (after : ℕ → ℕ → ℕ) (p : List ℕ × Result (Unit {0}))
    → IsGbtx c
    → Does c.config after p
    → Changing c after (with_config c p)
with_config-Changing c after (config, result) good (done, long, bytes) =
    (done, record { maps = good.maps; long = long }, refl, bytes)

pub and_then-Changing :
    (c : GbtxConfig) (first second : ℕ → ℕ → ℕ) (p : GbtxConfig × Result (Unit {0}))
    (f : GbtxConfig → GbtxConfig × Result (Unit {0}))
    → Changing c first p
    → ((d : GbtxConfig) → IsGbtx d → d.gbtx_type ≡ c.gbtx_type → Changing d second (f d))
    → Changing c (λ r old. second r (first r old)) (and_then p f)
unfolding and_then
and_then-Changing c first second (d, err e) f (done, good, type, bytes) next = cc
and_then-Changing c first second (d, ok u) f (done, good, type, bytes) next =
    let (done', good', type', bytes') = next d good type in
    (done', good', type' ∙ type, λ r old e. bytes' r (first r old) (bytes r old e))

module _ (name : String) (v : ℕ) (rg : RegMap)
    (known : lookup name compiled_gbtx_register_map ≡ some rg) where
  found : (c : GbtxConfig) → IsGbtx c → lookup name c.register_maps ≡ some rg
  found c good = ap (lookup name) good.maps ∙ known

  sound : fits rg.registers rg.shifts ≡ true
  unfolding setting_fits
  sound = found_fits compiled_gbtx_register_map name table_fits known

  pub set_setting-Changing :
      (c : GbtxConfig)
      → IsGbtx c
      → Changing c (fields v rg.registers rg.shifts) (set_setting c name v)
  unfolding set_setting
  set_setting-Changing c good =
      subst (λ o. Changing c (fields v rg.registers rg.shifts) (set_found c v o))
        (sym (found c good))
        (with_config-Changing c _ _ good
          (set_loop-Does c.config v rg.registers rg.shifts good.long sound))

  pub reset-Changing :
      (c : GbtxConfig)
      → IsGbtx c
      → Changing c
          (λ r old.
            fields v rg.registers rg.shifts r (if any (λ x. x == r) rg.registers then 0 else old))
          (reset c name v)
  unfolding reset
  reset-Changing c good =
      subst
        (λ o.
          Changing c
            (λ r old.
              fields v rg.registers rg.shifts r (if any (λ x. x == r) rg.registers then 0 else old))
            (reset_found c name v o))
        (sym (found c good))
        (and_then-Changing c (λ r old. if any (λ x. x == r) rg.registers then 0 else old)
          (fields v rg.registers rg.shifts) _ (λ zeroed. set_setting zeroed name v)
          (with_config-Changing c _ _ good (
            zero_loop-Does c.config rg.registers good.long (fits-all rg.registers rg.shifts sound)))
          (λ d good_d type. set_setting-Changing d good_d))

  -- On an object over the compiled table with 436 bytes, setting a name of the table does not throw
  -- and leaves an object of this kind and of the same type; the value is or-ed into each register at
  -- the shifts that the setting has for it, and no other register changes.
  pub set_setting-Changes :
      (c : GbtxConfig)
      → IsGbtx c
      → Changes c (fields v rg.registers rg.shifts) (set_setting c name v)
  set_setting-Changes c good =
      Changing-Changes c _ (set_setting c name v) good (set_setting-Changing c good)

  -- On an object over the compiled table with 436 bytes, the reset of a name of the table does not
  -- throw and leaves an object of this kind and of the same type; the registers of the setting become
  -- zero before the value is or-ed into them, and no other register changes.
  pub reset-Changes :
      (c : GbtxConfig)
      → IsGbtx c
      → Changes c
          (λ r old.
            fields v rg.registers rg.shifts r (if any (λ x. x == r) rg.registers then 0 else old))
          (reset c name v)
  reset-Changes c good = Changing-Changes c _ (reset c name v) good (reset-Changing c good)

-- What a reset of a name makes of a register.
abbrev pub reset_byte : Option RegMap → ℕ → ℕ → ℕ → ℕ
reset_byte none v r old = old
reset_byte (some rg) v r old =
    fields v rg.registers rg.shifts r (if any (λ x. x == r) rg.registers then 0 else old)

-- What resets one after another make of it.
unfoldable pub resets_byte : List (String × ℕ) → ℕ → ℕ → ℕ
resets_byte [] r old = old
resets_byte ((name, v) ∷ calls) r old =
    resets_byte calls r (reset_byte (lookup name compiled_gbtx_register_map) v r old)

-- A call for a name of the table.
abbrev pub IsKnown : String × ℕ → Type 0
IsKnown call = (rg : RegMap) × (lookup call.0 compiled_gbtx_register_map ≡ some rg)

pub resets-Changing :
    (calls : List (String × ℕ))
    → All IsKnown calls
    → (c : GbtxConfig) → IsGbtx c
    → Changing c (resets_byte calls) (resets calls c)
unfolding resets resets_byte
resets-Changing [] known c good = (refl, good, refl, λ r old e. e)
resets-Changing ((name, v) ∷ calls) ((rg, k), known) c good =
    and_then-Changing c (reset_byte (lookup name compiled_gbtx_register_map) v) (resets_byte calls)
      (reset c name v) (resets calls)
      (subst (λ o. Changing c (reset_byte o v) (reset c name v)) (sym k)
        (reset-Changing name v rg k c good))
      (λ d good_d type. resets-Changing calls known d good_d)
