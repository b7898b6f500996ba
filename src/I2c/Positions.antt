-- ===== src/I2c/Positions.antt =====
-- The maps that calculateSizesAndPositions of src/I2cMasterConfig.cpp leaves, for every address.
use nswconfiguration.Common.{
  ℕ, ◌≡◌, refl, sym, ap, ◌∙◌, String, str_eq, Bool, true, false, List, [], ◌∷◌, Option, none, some,
  eq_iff,
}
use nswconfiguration.Common.Assoc.{
  Assoc, lookup, insert, lookup-insert, lookup-cons, lookup_empty, IsMap,
}
use mathlib.Core.Path.{subst}
use nswconfiguration.Stream.{total}
use nswconfiguration.I2c.Codec.{
  RegisterSize, size_of, AddressRegisterMap, I2cMasterCodec, layout_loop, codec_loop,
  i2c_master_codec,
}

-- The value of a map at the address, after the loop wrote it for the addresses of `reg`.
abbrev pub written {ℓ} :
    {V : Type ℓ} → (List RegisterSize → V) → Option (List RegisterSize) → Option V → Option V
written f none old = old
written f (some registers) old = some (f registers)

abbrev pub positions_of : List RegisterSize → Assoc ℕ
positions_of registers = (layout_loop registers 0 [] []).0

abbrev pub sizes_of : List RegisterSize → Assoc ℕ
sizes_of registers = (layout_loop registers 0 [] []).1

-- A map that the loop fills at each address of a register map, whatever it is filled with.
fill {ℓ} : {V : Type ℓ} → (List RegisterSize → V) → AddressRegisterMap → Assoc V → Assoc V
fill f [] m = m
fill f ((address, registers) ∷ rest) m = fill f rest (insert address (f registers) m)

lookup-fill {ℓ} :
    {V : Type ℓ} (f : List RegisterSize → V) (reg : AddressRegisterMap) (m : Assoc V)
    (address : String)
    → IsMap reg
    → lookup address (fill f reg m) ≡ written f (lookup address reg) (lookup address m)
unfolding fill
lookup-fill f [] m address h = ap (λ o. written f o (lookup address m)) (sym (lookup_empty address))
lookup-fill f ((key, registers) ∷ rest) m address (fresh, h) =
    lookup-fill f rest (insert key (f registers) m) address h ∙ round (str_eq key address) refl
  where
    gone : str_eq key address ≡ true → lookup address rest ≡ none
    gone same = subst (λ k. lookup k rest ≡ none) ((eq_iff key address).0 same) fresh

    round :
        (b : Bool)
        → str_eq key address ≡ b
        → written f (lookup address rest) (lookup address (insert key (f registers) m))
          ≡ written f
              (lookup {V = List RegisterSize} address ((key, registers) ∷ rest))
              (lookup address m)
    round true same = rw (lookup-insert, lookup-cons, same, gone same) refl
    round false differ = rw (lookup-insert, lookup-cons, differ) refl

codec_loop-fill :
    (reg : AddressRegisterMap) (c : I2cMasterCodec)
    → ((codec_loop reg c).addr_size ≡ fill (total size_of) reg c.addr_size)
      × ((codec_loop reg c).addr_reg_pos ≡ fill positions_of reg c.addr_reg_pos)
      × ((codec_loop reg c).addr_reg_size ≡ fill sizes_of reg c.addr_reg_size)
unfolding codec_loop fill
codec_loop-fill [] c = (refl, refl, refl)
codec_loop-fill ((address, registers) ∷ rest) c = codec_loop-fill rest _

module _ (reg : AddressRegisterMap) (keys : IsMap reg) (address : String) where
  pub lookup-addr_size :
      lookup address (i2c_master_codec reg).addr_size
      ≡ written (total size_of) (lookup address reg) none
  unfolding i2c_master_codec
  lookup-addr_size =
      ap (lookup address) (codec_loop-fill reg _).0
      ∙ lookup-fill _ reg [] address keys
      ∙ ap (written (total size_of) (lookup address reg)) (lookup_empty address)

  pub lookup-addr_reg_pos :
      lookup address (i2c_master_codec reg).addr_reg_pos
      ≡ written positions_of (lookup address reg) none
  unfolding i2c_master_codec
  lookup-addr_reg_pos =
      ap (lookup address) (codec_loop-fill reg _).1
      ∙ lookup-fill _ reg [] address keys
      ∙ ap (written positions_of (lookup address reg)) (lookup_empty address)

  pub lookup-addr_reg_size :
      lookup address (i2c_master_codec reg).addr_reg_size
      ≡ written sizes_of (lookup address reg) none
  unfolding i2c_master_codec
  lookup-addr_reg_size =
      ap (lookup address) (codec_loop-fill reg _).2
      ∙ lookup-fill _ reg [] address keys
      ∙ ap (written sizes_of (lookup address reg)) (lookup_empty address)

codec_loop-addr_reg :
    (rest : AddressRegisterMap) (c : I2cMasterCodec) → (codec_loop rest c).addr_reg ≡ c.addr_reg
unfolding codec_loop
codec_loop-addr_reg [] c = refl
codec_loop-addr_reg ((address, registers) ∷ rest) c = codec_loop-addr_reg rest _

-- The codec keeps the map that it was made from.
pub addr_reg-i2c_master_codec : (reg : AddressRegisterMap) → (i2c_master_codec reg).addr_reg ≡ reg
unfolding i2c_master_codec
addr_reg-i2c_master_codec reg = codec_loop-addr_reg reg _
