-- ===== src/I2c/Maps/WellFormed.antt =====
-- Every register map is fit for the codec of src/I2cMasterConfig.cpp.
use nswconfiguration.Common.{
  ℕ, ◌*◌, ◌/◌, ◌%◌, ◌≤◌, ◌<◌, ◌≡◌, refl, sym, ap, ◌∙◌, arith, String, str_eq, Bool, true, false,
  List, [], ◌∷◌, ◌&&◌, not, any, all, ltb, leb, ◌==◌, none, some, inl, inr, if◌then◌else◌,
  Bool-cases,
}
use nswconfiguration.Common.Assoc.{lookup, IsMap, lookup-cons, lookup_empty}
use nswconfiguration.Stream.{total}
use nswconfiguration.I2c.Codec.{RegisterSize, size_of, AddressRegisterMap}
use nswconfiguration.I2c.Layout.{At}
use nswconfiguration.I2c.Maps.{
  Master, registers, roc_analog, roc_digital, tds, art_ps, art_core, padtrigger,
}
use mathlib.Core.Path.{subst}
use mathlib.Core.Option.{some-injective}

-- A register takes 1 to 32 bits.
size_fits : RegisterSize → Bool
size_fits r = ltb 0 r.1 && leb r.1 32

-- The registers of an address fill whole bytes.
vector_fits : List RegisterSize → Bool
vector_fits v = all size_fits v && total size_of v % 8 == 0

-- No address stands twice in a map.
is_map : AddressRegisterMap → Bool
is_map [] = true
is_map ((address, v) ∷ rest) = not (any (λ e. str_eq e.0 address) rest) && is_map rest

map_fits : AddressRegisterMap → Bool
map_fits reg = is_map reg && all (λ e. vector_fits e.1) reg

map_fits-registers : (m : Master) → map_fits (registers m) ≡ true
unfolding map_fits vector_fits size_fits is_map registers
map_fits-registers roc_analog = refl
map_fits-registers roc_digital = refl
map_fits-registers tds = refl
map_fits-registers art_ps = refl
map_fits-registers art_core = refl
map_fits-registers padtrigger = refl

absent_key :
    (address : String) (rest : AddressRegisterMap)
    → any (λ e. str_eq e.0 address) rest ≡ false
    → lookup address rest ≡ none
absent_key address [] h = lookup_empty address
absent_key address ((key, v) ∷ rest) h =
    lookup-cons address key v rest ∙ ground (arith, absent_key address rest)

is_map-IsMap : (reg : AddressRegisterMap) → is_map reg ≡ true → IsMap reg
unfolding is_map
is_map-IsMap [] h = tt
is_map-IsMap ((address, v) ∷ rest) h =
    (absent_key address rest (ground arith), is_map-IsMap rest (ground arith))

found_vector :
    (reg : AddressRegisterMap) (address : String) {v : List RegisterSize}
    → all (λ e. vector_fits e.1) reg ≡ true
    → lookup address reg ≡ some v
    → vector_fits v ≡ true
found_vector [] address h e = cc (lookup_empty {V = List RegisterSize} address)
found_vector ((key, w) ∷ rest) address h e = elim (Bool-cases (str_eq key address)) [
  | inl same ↦
      subst (λ t. vector_fits t ≡ true)
        (some-injective w _ (
          ap (λ b. if b then some w else lookup address rest) (sym same)
          ∙ sym (lookup-cons address key w rest)
          ∙ e))
        (ground arith)
  | inr differ ↦ found_vector rest address (ground arith) (
      ap (λ b. if b then some w else lookup address rest) (sym differ)
      ∙ sym (lookup-cons address key w rest)
      ∙ e)
]

placed_size :
    (v : List RegisterSize) (p : ℕ) (r : RegisterSize)
    → all size_fits v ≡ true
    → At v p r
    → size_fits r ≡ true
placed_size [] p r h a = elim a [ ]
placed_size (q ∷ rest) p r h (inl (here, same)) =
    subst (λ t. size_fits t ≡ true) same (ground arith)
placed_size (q ∷ rest) p r h (inr (p', later, a)) = placed_size rest p' r (ground arith) a

module _ (m : Master) where
  pub IsMap-registers : IsMap (registers m)
  IsMap-registers =
      is_map-IsMap (registers m) (unfold map_fits in (ground (arith, map_fits-registers m)))

  vector_fits-registers :
      (address : String) {v : List RegisterSize}
      → lookup address (registers m) ≡ some v
      → vector_fits v ≡ true
  vector_fits-registers address h = found_vector (registers m) address (every m) h
    where
      every : (k : Master) → all (λ e. vector_fits e.1) (registers k) ≡ true
      every k = unfold map_fits in (ground (arith, map_fits-registers k))

  -- A register of a map takes 1 to 32 bits.
  pub size-registers :
      (address : String) (v : List RegisterSize) (p : ℕ) (r : RegisterSize)
      → lookup address (registers m) ≡ some v
      → At v p r
      → (0 < r.1) × (r.1 ≤ 32)
  size-registers address v p r h a =
      in_range (placed_size v p r (all_sizes (vector_fits-registers address h)) a)
    where
      all_sizes : vector_fits v ≡ true → all size_fits v ≡ true
      all_sizes e = unfold vector_fits in (ground arith)

      in_range : size_fits r ≡ true → (0 < r.1) × (r.1 ≤ 32)
      in_range e = unfold size_fits in (ground arith)

  -- In each register map the registers of an address fill whole bytes.
  pub whole_bytes-registers :
      (address : String) (v : List RegisterSize)
      → lookup address (registers m) ≡ some v
      → total size_of v ≡ 8 * (total size_of v / 8)
  whole_bytes-registers address v h = divides (vector_fits-registers address h)
    where
      divides : vector_fits v ≡ true → total size_of v ≡ 8 * (total size_of v / 8)
      divides e = unfold vector_fits in (ground arith)
