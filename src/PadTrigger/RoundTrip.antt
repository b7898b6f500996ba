-- ===== src/PadTrigger/RoundTrip.antt =====
-- writeSubRegister and readSubRegister of src/hw/PadTrigger.cpp over PADTRIGGER_REGISTERS.
use nswconfiguration.Common.{
  ℕ, ◌+◌, ◌^◌, ◌<◌, ◌≤◌, ◌≡◌, ◌≢◌, refl, sym, ap, ◌∙◌, arith, true, leb, all, List, slice, splice,
  length-splice, slice-splice_self, slice-splice_before, slice-splice_after, String, Option, none,
  some, leb→le, inl, inr,
}
use nswconfiguration.Common.Results.{Result, ok, err, ◌>>=◌, at, ok-injective}
use nswconfiguration.Common.Assoc.{Assoc, lookup, lookup-all}
use nswconfiguration.Bits.{bits, value, value-bits_fits, bits-value, length-bits}
use nswconfiguration.Stream.{total}
use nswconfiguration.I2c.Codec.{RegisterSize, size_of, i2c_master_codec}
use nswconfiguration.I2c.Config.{I2cMasterConfig, find_register, register_place, register_entry}
use nswconfiguration.I2c.Config.Places.{find_register-At}
use nswconfiguration.I2c.Layout.{At, At-bound, At-disjoint}
use nswconfiguration.I2c.Maps.{registers, padtrigger}
use nswconfiguration.I2c.Maps.WellFormed.{IsMap-registers, size-registers}
use mathlib.Core.Path.{subst}
use mathlib.Core.Option.{some-injective}
use nswconfiguration.PadTrigger.{write_sub_register, read_sub_register}
use nswconfiguration.PadTrigger.Names.{address_from_register_name, at_names}
use nswconfiguration.PadTrigger.Link.{FpgaLink}
use nswconfiguration.PadTrigger.Registers.{Holds, Holds-word, read_fpga_register-run}
use nswconfiguration.PadTrigger.SubRegisters.{
  Placed, spliced_word, get_sub_register_from_register-slice, write_sub_register-splice,
}

entry_parts :
    (address : String) (o : Option ℕ) (r : Result ℕ) {p n : ℕ}
    → register_entry address o r ≡ ok (p, n)
    → (at o ≡ ok p) × (r ≡ ok n)
unfolding register_entry
entry_parts address none r e = cc
entry_parts address (some q) (err issue) e = cc
entry_parts address (some q) (ok m) e =
    (ap (λ t. ok t.0) (ok-injective e), ap (λ t. ok t.1) (ok-injective e))

place_parts :
    (address name : String) (positions sizes : Option (Assoc ℕ)) {p n : ℕ}
    → register_place address name positions sizes ≡ ok (p, n)
    → ((at positions >>= λ m. at (lookup name m)) ≡ ok p)
      × ((at sizes >>= λ m. at (lookup name m)) ≡ ok n)
unfolding register_place
place_parts address name none sizes e = cc
place_parts address name (some m) sizes e = entry_parts address (lookup name m) _ e

-- The registers of an address fill a word at most.
words : all (λ e. leb (total size_of e.1) 32) (registers padtrigger) ≡ true
unfolding registers
words = refl

module _ (fpga : I2cMasterConfig)
    (same : fpga.codec ≡ i2c_master_codec (registers padtrigger)) where
  -- A sub-register of the map stands in the register vector, inside a word.
  found_place :
      (rname subreg : String) {p n : ℕ}
      → find_register fpga.codec rname subreg ≡ ok (p, n)
      → (v : List RegisterSize) × (lookup rname (registers padtrigger) ≡ some v)
        × At v p (subreg, n)
  found_place rname subreg found =
      find_register-At (registers padtrigger) rname subreg (IsMap-registers padtrigger)
        (ap (λ k. find_register k rname subreg) (sym same) ∙ found)

  find_register-Placed :
      (rname subreg : String) {p n : ℕ}
      → find_register fpga.codec rname subreg ≡ ok (p, n)
      → Placed fpga rname subreg p n
  unfolding find_register at_names
  find_register-Placed rname subreg found =
      let (v, here, a) = found_place rname subreg found in
      let (hp, hn) =
        place_parts rname subreg (lookup rname fpga.codec.addr_reg_pos)
          (lookup rname fpga.codec.addr_reg_size) found in
      (
        hp,
        hn,
        omega (
          arith,
          At-bound v _ (subreg, _) a,
          leb→le (total size_of v) 32 (
              lookup-all (λ x. leb (total size_of x) 32) rname (registers padtrigger) v words here),
        ),
      )

-- Two windows of a bit string of 32 bits after one is replaced.
spliced_bits :
    (pos siz v w : ℕ)
    → pos + siz ≤ 32
    → bits 32 (value (splice pos siz (bits siz v) (bits 32 w)))
      ≡ splice pos siz (bits siz v) (bits 32 w)
spliced_bits pos siz v w here =
    ap (λ (n : ℕ). bits n (value (splice pos siz (bits siz v) (bits 32 w))))
      (sym (
        length-splice pos siz (bits siz v) (bits 32 w) (omega (arith, length-bits 32 w))
          (length-bits siz v)
        ∙ length-bits 32 w))
    ∙ bits-value (splice pos siz (bits siz v) (bits 32 w))

module _ {Fpga : Type 0} ⦃link : FpgaLink Fpga⦄ (fpga : I2cMasterConfig) (rname : String) (addr : ℕ)
    (named : address_from_register_name rname ≡ ok addr) (can : link.writable addr ≡ true) where
  -- A sub-register reads as its window of the word.
  read_sub_register-slice :
      (d : Fpga) (subreg : String) (pos siz w : ℕ)
      → link.online d ≡ true
      → Placed fpga rname subreg pos siz
      → Holds d addr w
      → w < 2 ^ 32
      → (read_sub_register fpga rname subreg d).1 ≡ ok (value (slice pos siz (bits 32 w)))
  unfolding read_sub_register
  read_sub_register-slice d subreg pos siz w up placed holds word =
      rw (named, read_fpga_register-run d up addr w can holds)
        (get_sub_register_from_register-slice fpga rname subreg pos siz w placed word)

  module _ (same : fpga.codec ≡ i2c_master_codec (registers padtrigger)) (d : Fpga)
      (up : link.online d ≡ true) (subreg : String) (pos siz subval : ℕ)
      (found : find_register fpga.codec rname subreg ≡ ok (pos, siz)) (small : siz < 32)
      (fits : subval < 2 ^ siz) where
    -- The windows of two sub-registers are apart.
    frame :
        (other : String) (q n w : ℕ)
        → find_register fpga.codec rname other ≡ ok (q, n)
        → subreg ≢ other
        → pos + siz ≤ 32
        → q + n ≤ 32
        → slice q n (splice pos siz (bits siz subval) (bits 32 w)) ≡ slice q n (bits 32 w)
    frame other q n w found' apart here here' =
        let (v, in_map, a) = found_place fpga same rname subreg found in
        let (v', in_map', a') = found_place fpga same rname other found' in
        let whole = length-bits 32 w in
        elim (At-disjoint v pos q (subreg, siz) (other, n) a
          (subst (λ x. At x q (other, n)) (some-injective v' v (sym in_map' ∙ in_map)) a') apart) [
            | inl before ↦
                slice-splice_after pos siz (bits siz subval) (bits 32 w) (omega (arith, whole))
                  (length-bits siz subval) q n before
            | inr after ↦
                slice-splice_before pos siz (bits siz subval) (bits 32 w) (omega (arith, whole))
                  (length-bits siz subval) q n after
          ]

    -- While the link answers, writing a value that fits to a sub-register of less than 32 bits in a
    -- writable register does not throw: the sub-register then reads as the value, every other
    -- sub-register of the register reads as before, and no other writable address changes.
    pub write_sub_register-reads :
        ((write_sub_register fpga rname subreg subval d).1 ≡ ok tt)
        × ((read_sub_register fpga rname subreg (write_sub_register fpga rname subreg subval d).0).1
            ≡ ok subval)
        × ((other : String) (q n : ℕ)
            → find_register fpga.codec rname other ≡ ok (q, n)
            → subreg ≢ other
            → (read_sub_register fpga rname other
                (write_sub_register fpga rname subreg subval d).0).1
              ≡ (read_sub_register fpga rname other d).1)
        × ((b : ℕ)
            → link.writable b ≡ true
            → addr ≢ b
            → link.content (write_sub_register fpga rname subreg subval d).0 b ≡ link.content d b)
    write_sub_register-reads =
        let placed = find_register-Placed fpga same rname subreg found in
        let (v, in_map, a) = found_place fpga same rname subreg found in
        let some_bit = (size-registers padtrigger rname v pos (subreg, siz) in_map a).0 in
        let (w, holds, word) = Holds-word d up addr in
        let (done, up', stored, kept) =
          write_sub_register-splice d up fpga rname subreg addr pos siz subval named can placed
            some_bit small fits w holds word in
        let d' = (write_sub_register fpga rname subreg subval d).0 in
        let w' = value (splice pos siz (bits siz subval) (bits 32 w)) in
        let word' = spliced_word pos siz subval w placed.2 in
        (
          done,
          read_sub_register-slice d' subreg pos siz w' up' placed stored word'
              ∙ ap (λ t. ok (value (slice pos siz t))) (spliced_bits pos siz subval w placed.2)
              ∙ ap (λ t. ok (value t))
                  (slice-splice_self pos siz (bits siz subval) (bits 32 w)
                    (omega (arith, length-bits 32 w)) (length-bits siz subval))
              ∙ ap ok (value-bits_fits siz subval fits),
          λ other q n found' apart.
              let placed' = find_register-Placed fpga same rname other found' in
              read_sub_register-slice d' other q n w' up' placed' stored word'
              ∙ ap (λ t. ok (value (slice q n t))) (spliced_bits pos siz subval w placed.2)
              ∙ ap (λ t. ok (value t)) (frame other q n w found' apart placed.2 placed'.2)
              ∙ sym (read_sub_register-slice d other q n w up placed' holds word),
          kept,
        )
