-- ===== src/Router/IdFields.antt =====
-- Where the ID that getId of src/hw/Router.cpp gives has the sector, the layer and the endcap.
use nswconfiguration.Common.{
  ℕ, ◌+◌, ◌-◌, ◌*◌, ◌/◌, ◌%◌, ◌^◌, ◌==◌, ◌<◌, ◌≤◌, ◌≡◌, refl, ap, ◌∙◌, arith, ltb, Bool, true,
  false, not, ◌||◌, ◌&&◌, List, ◌∷◌, length, take, drop, if◌then◌else◌,
}
use nswconfiguration.Common.Results.{ok}
use nswconfiguration.Common.Actions.{Action, pass-ok, ◌>>=◌, ◌>>◌, lift}
use nswconfiguration.Text.Numbers.{stoul}
use nswconfiguration.Router.Id.{
  Router, Reports, crash_id, crash_if, is_old_naming_convention, check_id, begins_with,
  endcap_letter, get_id_endcap, sector_digits, checked_sector, get_id_sector, checked_layer,
  get_id_layer, get_id,
}

-- A call gives a value, whatever it reports.
abbrev pub Gives {ℓ} : {A : Type ℓ} → Action Reports A → A → Type ℓ
Gives m a = (reports : Reports) → (m reports).1 ≡ ok a

module _ {ℓ κ} {A : Type ℓ} {C : Type κ} where
  Gives-bind :
      (m : Action Reports A) (next : A → Action Reports C) (a : A) (c : C)
      → Gives m a
      → Gives (next a) c
      → Gives (m >>= next) c
  Gives-bind m next a c h k reports =
      ap (λ s. s.1) (pass-ok (m reports) a next (h reports)) ∙ k (m reports).0

crash_if-Gives : (bad : Bool) → Gives (crash_if bad) tt
unfolding crash_if crash_id
crash_if-Gives true reports = refl
crash_if-Gives false reports = refl

crash_then {ℓ} : {A : Type ℓ} (bad : Bool) (a : A) → Gives (crash_if bad >> lift (ok a)) a
crash_then bad a =
    Gives-bind (crash_if bad) (λ u. lift (ok a)) tt a (crash_if-Gives bad) (λ reports. refl)

two_checks : (a c : Bool) → Gives (crash_if a >> crash_if c) tt
two_checks a c =
    Gives-bind (crash_if a) (λ u. crash_if c) tt tt (crash_if-Gives a) (crash_if-Gives c)

check_id-Gives : (r : Router) → Gives (check_id r) tt
unfolding check_id
check_id-Gives r =
    two_checks
      (not
        (length r.sca_address == 9 || (length r.sca_address == 28 || length r.sca_address == 29)))
      (is_old_naming_convention r
        && not (begins_with b'L' (drop (length r.sca_address - 2) r.sca_address)))

get_id-parts :
    (r : Router) (sector layer endcap : ℕ)
    → Gives (get_id_sector r) sector
    → Gives (get_id_layer r) layer
    → Gives (get_id_endcap r) endcap
    → Gives (get_id r) ((sector * 16 + layer * 2 + endcap) % 256)
unfolding get_id
get_id-parts r sector layer endcap s l e =
    let id = (sector * 16 + layer * 2 + endcap) % 256 in
    Gives-bind (check_id r) _ tt id (check_id-Gives r) (
      Gives-bind (get_id_sector r) _ sector id s (
        Gives-bind (get_id_layer r) _ layer id l
          (Gives-bind (get_id_endcap r) _ endcap id e (λ reports. refl))))

-- The ID holds the endcap at bit 0, the layer at bits 1 to 3 and the sector's lowest four bits above.
abbrev pub Fields : ℕ → ℕ → ℕ → ℕ → Type 0
Fields id sector layer endcap = (id / 16 ≡ sector % 16) × (id / 2 % 8 ≡ layer) × (id % 2 ≡ endcap)

id-Fields : (s l e : ℕ) → l < 8 → e < 2 → Fields ((s * 16 + l * 2 + e) % 256) s l e
id-Fields s l e hl he = (omega arith, omega arith, omega arith)

checked_sector-Gives : (n : ℕ) → Gives (checked_sector n) ((n + 2 ^ 64 - 1) % 2 ^ 64 % 256)
unfolding checked_sector
checked_sector-Gives n = crash_then (ltb n 1 || ltb 16 n) ((n + 2 ^ 64 - 1) % 2 ^ 64 % 256)

checked_layer-Gives : (n : ℕ) → Gives (checked_layer n) (n % 256)
unfolding checked_layer
checked_layer-Gives n = crash_then (ltb 7 n) (n % 256)

-- The endcap of a sector's name: every letter but A counts as C.
abbrev pub endcap_bit : ℕ → ℕ
endcap_bit letter = if letter == b'A' then 0 else 1

endcap_bit-lt : (t : Bool) → (if◌then◌else◌ {A = ℕ} t 0 1) < 2
endcap_bit-lt true = omega arith
endcap_bit-lt false = omega arith

-- For a router with an old name, whose sector is a letter and a number of at least 1 and whose layer
-- is below 8, getId gives an ID, however large the sector's number is: it holds the lowest four bits
-- of that number less 1, the layer, and the endcap 0 for the letter A and 1 for any other.
pub get_id-old :
    (r : Router) (letter : ℕ) (digits : List ℕ) (n layer : ℕ)
    → is_old_naming_convention r ≡ true
    → r.sector ≡ ok (letter ∷ digits)
    → stoul 10 (take 2 digits) ≡ ok n
    → stoul 10 (drop (length r.sca_address - 1) r.sca_address) ≡ ok layer
    → 1 ≤ n
    → n < 2 ^ 64
    → layer < 8
    → (id : ℕ) × Gives (get_id r) id × Fields id (n - 1) layer (endcap_bit letter)
unfolding get_id_sector get_id_layer get_id_endcap endcap_letter sector_digits
get_id-old r letter digits n layer old name number last one word small =
    let s = (n + 2 ^ 64 - 1) % 2 ^ 64 % 256 in
    let l = layer % 256 in
    let e = endcap_bit letter in
    let (fs, fl, fe) = id-Fields s l e (omega (arith, small)) (endcap_bit-lt (letter == b'A')) in
    (
      _,
      get_id-parts r s l e (λ reports. rw (old, name, number) (checked_sector-Gives n reports))
          (λ reports. rw (old, last) (checked_layer-Gives layer reports))
          (λ reports.
            rw (old, name) (crash_then (not (letter == b'A') && not (letter == b'C')) e reports)),
      (omega (arith, fs, one, word), omega (arith, fl, small), fe),
    )
