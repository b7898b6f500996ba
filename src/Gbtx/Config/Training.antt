-- ===== src/Gbtx/Config/Training.antt =====
-- The training sequences of src/GBTxConfig.cpp against the registers that their comments name.
use Prim.Native.Nat.{bit_or}
use nswconfiguration.Common.{
  ℕ, ◌≡◌, refl, ap, ◌∙◌, ◌==◌, String, Bool, true, false, List, [], ◌∷◌, any, All, ◌||◌,
  if◌then◌else◌, some,
}
use nswconfiguration.Common.Results.{Result}
use nswconfiguration.Common.Assoc.{lookup}
use nswconfiguration.Gbtx.Map.{reg_map}
use nswconfiguration.Gbtx.Maps.{compiled_gbtx_register_map}
use nswconfiguration.Gbtx.Config.{
  GbtxConfig, shifted, reset, resets, trains, trainable, set_training_registers_on,
  set_training_registers_off, is_type,
}
use nswconfiguration.Gbtx.Config.Bytes.{fields}
use nswconfiguration.Gbtx.Config.Settings.{
  IsGbtx, IsKnown, Changing, and_then-Changing, reset-Changing, reset_byte, resets_byte,
  resets-Changing,
}
use nswconfiguration.Gbtx.Config.Settings.{Changes, Changing-Changes}
use nswconfiguration.Text.{contains}

-- Registers that get a value, in this order; the others stay.
unfoldable pub overwritten : List (List ℕ × ℕ) → ℕ → ℕ → ℕ
overwritten [] r old = old
overwritten ((registers, w) ∷ writes) r old =
    overwritten writes r (if any (λ x. x == r) registers then w else old)

-- The three copies A, B and C of the training registers of each group; the groups 0 to 4 get w.
abbrev pub train_writes : ℕ → List (List ℕ × ℕ)
train_writes w =
    (78 ∷ 79 ∷ 80 ∷ [], w)
    ∷ (102 ∷ 103 ∷ 104 ∷ [], w)
    ∷ (126 ∷ 127 ∷ 128 ∷ [], w)
    ∷ (150 ∷ 151 ∷ 152 ∷ [], w)
    ∷ (174 ∷ 175 ∷ 176 ∷ [], w)
    ∷ (198 ∷ 199 ∷ 200 ∷ [], 0)
    ∷ (222 ∷ 223 ∷ 224 ∷ [], 0)
    ∷ []

-- A zeroed register that a byte is or-ed into, more than once where it is named again, is the byte.
three :
    (p q s : Bool) (w old : ℕ)
    → bit_or 0 w ≡ w
    → bit_or w w ≡ w
    → (let zeroed = if p || (q || (s || false)) then 0 else old in
        let first = if p then bit_or zeroed w else zeroed in
        let second = if q then bit_or first w else first in if s then bit_or second w else second)
      ≡ (if p || (q || (s || false)) then w else old)
three true true true w old h k = rw (h, k, k) refl
three true true false w old h k = rw (h, k) refl
three true false true w old h k = rw (h, k) refl
three true false false w old h k = h
three false true true w old h k = rw (h, k) refl
three false true false w old h k = h
three false false true w old h k = h
three false false false w old h k = refl

-- Calls of reset that overwrite registers as listed.
abbrev Matches : List (String × ℕ) → List (List ℕ × ℕ) → Type 0
Matches [] [] = Unit
Matches (call ∷ calls) (write ∷ writes) =
    (IsKnown call)
    × ((r old : ℕ)
        → reset_byte (lookup call.0 compiled_gbtx_register_map) call.1 r old
          ≡ (if any (λ x. x == r) write.0 then write.1 else old))
    × Matches calls writes
Matches [] (write ∷ writes) = ⊥
Matches (call ∷ calls) [] = ⊥

matching-IsKnown :
    (calls : List (String × ℕ)) (writes : List (List ℕ × ℕ))
    → Matches calls writes
    → All IsKnown calls
matching-IsKnown [] [] m = tt
matching-IsKnown (call ∷ calls) (write ∷ writes) (known, same, m) =
    (known, matching-IsKnown calls writes m)
matching-IsKnown [] (write ∷ writes) m = elim m [ ]
matching-IsKnown (call ∷ calls) [] m = elim m [ ]

resets_byte-overwritten :
    (calls : List (String × ℕ)) (writes : List (List ℕ × ℕ))
    → Matches calls writes
    → (r old : ℕ) → resets_byte calls r old ≡ overwritten writes r old
unfolding resets_byte overwritten
resets_byte-overwritten [] [] m r old = refl
resets_byte-overwritten (call ∷ calls) (write ∷ writes) (known, same, m) r old =
    ap (resets_byte calls r) (same r old) ∙ resets_byte-overwritten calls writes m r _
resets_byte-overwritten [] (write ∷ writes) m r old = elim m [ ]
resets_byte-overwritten (call ∷ calls) [] m r old = elim m [ ]

Changing-cong :
    (c : GbtxConfig) (f g : ℕ → ℕ → ℕ) (p : GbtxConfig × Result (Unit {0}))
    → ((r old : ℕ) → f r old ≡ g r old)
    → Changing c f p
    → Changing c g p
Changing-cong c f g p same (done, good, type, bytes) =
    (done, good, type, λ r old e. bytes r old e ∙ ap some (same r old))

resets-overwritten :
    (calls : List (String × ℕ)) (writes : List (List ℕ × ℕ))
    → Matches calls writes
    → (c : GbtxConfig) → IsGbtx c
    → Changing c (overwritten writes) (resets calls c)
resets-overwritten calls writes m c good =
    Changing-cong c _ _ (resets calls c) (resets_byte-overwritten calls writes m)
      (resets-Changing calls (matching-IsKnown calls writes m) c good)

-- A reset of a setting with the same shift, 0, in three registers.
one_setting :
    (v w : ℕ)
    → shifted v 0 ≡ w
    → bit_or 0 w ≡ w
    → bit_or w w ≡ w
    → (x y z r old : ℕ)
    → reset_byte (some (reg_map "" "" (0 ∷ 0 ∷ 0 ∷ []) (x ∷ y ∷ z ∷ []))) v r old
      ≡ (if any (λ t. t == r) (x ∷ y ∷ z ∷ []) then w else old)
unfolding fields
one_setting v w byte h k x y z r old = rw byte (three (x == r) (y == r) (z == r) w old h k)

zero_byte : shifted 0 0 ≡ 0
unfolding shifted
zero_byte = refl

trains-Matches :
    (w : ℕ)
    → shifted w 0 ≡ w
    → bit_or 0 w ≡ w
    → bit_or w w ≡ w
    → Matches (trains w) (train_writes w)
unfolding lookup compiled_gbtx_register_map
trains-Matches w byte h k =
    let group = one_setting w w byte h k in
    let zeros = one_setting 0 0 zero_byte refl refl in
    (
      (_, refl),
      group 78 79 80,
      (
        (_, refl),
        group 102 103 104,
        (
          (_, refl),
          group 126 127 128,
          (
            (_, refl),
            group 150 151 152,
            (
              (_, refl),
              group 174 175 176,
              ((_, refl), zeros 198 199 200, ((_, refl), zeros 222 223 224, tt)),
            ),
          ),
        ),
      ),
    )

set_training_registers_off-Changing :
    (c : GbtxConfig)
    → IsGbtx c
    → trainable c ≡ true
    → Changing c (overwritten (train_writes 0)) (set_training_registers_off c)
unfolding set_training_registers_off
set_training_registers_off-Changing c good type =
    rw type
      (resets-overwritten (trains 0) (train_writes 0) (trains-Matches 0 zero_byte refl refl) c good)

full_byte : shifted 255 0 ≡ 255
unfolding shifted
full_byte = refl

-- The register of the mode: the value 1 at the shifts of its three copies.
mode_byte :
    (r old : ℕ)
    → reset_byte (lookup "paMode" compiled_gbtx_register_map) 1 r old
      ≡ overwritten ((62 ∷ [], 21) ∷ []) r old
unfolding lookup compiled_gbtx_register_map fields shifted overwritten
mode_byte r old = by_test (62 == r)
  where
    by_test :
        (p : Bool)
        → (let zeroed = if p || (p || (p || false)) then 0 else old in
            let first = if p then bit_or zeroed 1 else zeroed in
            let second = if p then bit_or first 4 else first in
            if p then bit_or second 16 else second)
          ≡ (if p || false then 21 else old)
    by_test true = refl
    by_test false = refl

set_training_registers_on-Changing :
    (c : GbtxConfig)
    → IsGbtx c
    → trainable c ≡ true
    → Changing c
        (λ r old. overwritten (train_writes 255) r (overwritten ((62 ∷ [], 21) ∷ []) r old))
        (set_training_registers_on c)
unfolding set_training_registers_on
set_training_registers_on-Changing c good type =
    and_then-Changing c (overwritten ((62 ∷ [], 21) ∷ [])) (overwritten (train_writes 255))
      (reset c "paMode" 1) _
      (Changing-cong c _ _ (reset c "paMode" 1) mode_byte (mode_reset c good))
      (λ d good_d same. rw (same_type d same ∙ type) (
        resets-overwritten (trains 255) (train_writes 255) (trains-Matches 255 full_byte refl refl)
          d good_d))
  where
    mode_reset :
        (c : GbtxConfig)
        → IsGbtx c
        → Changing c
            (reset_byte (lookup "paMode" compiled_gbtx_register_map) 1)
            (reset c "paMode" 1)
    mode_reset c good =
        unfold lookup compiled_gbtx_register_map in (reset-Changing "paMode" 1 _ refl c good)

    same_type : (d : GbtxConfig) → d.gbtx_type ≡ c.gbtx_type → trainable d ≡ trainable c
    same_type d same =
        unfold trainable is_type in
        (ap
          (λ t. contains t "mmg" || (contains t "pfeb" || (contains t "sfeb" || contains t "rim")))
          same)

-- For a GBTx of a type that is trained, over the compiled table and with 436 bytes: turning the
-- training off does not throw, leaves an object of this kind and type, zeroes the training registers
-- of the seven groups and changes no other register.
pub set_training_registers_off-Changes :
    (c : GbtxConfig)
    → IsGbtx c
    → trainable c ≡ true
    → Changes c (overwritten (train_writes 0)) (set_training_registers_off c)
set_training_registers_off-Changes c good type =
    Changing-Changes c _ (set_training_registers_off c) good
      (set_training_registers_off-Changing c good type)

-- For a GBTx of a type that is trained, over the compiled table and with 436 bytes: turning the
-- training on does not throw, leaves an object of this kind and type, writes the training mode 01
-- into the three copies in register 62, sets the training registers of the groups 0 to 4 to 255,
-- zeroes those of the groups 5 and 6 and changes no other register.
pub set_training_registers_on-Changes :
    (c : GbtxConfig)
    → IsGbtx c
    → trainable c ≡ true
    → Changes c
        (λ r old. overwritten (train_writes 255) r (overwritten ((62 ∷ [], 21) ∷ []) r old))
        (set_training_registers_on c)
set_training_registers_on-Changes c good type =
    Changing-Changes c _ (set_training_registers_on c) good
      (set_training_registers_on-Changing c good type)
