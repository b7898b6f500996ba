-- ===== src/Vmm/RoundTrip.antt =====
-- VMMCodec::buildConfig of src/VMMCodec.cpp against a decoder: the bit string has its 1728 bits, and
-- every register of the configuration is read back from its place in it.
use nswconfiguration.Common.{
  ℕ, ◌+◌, ◌-◌, ◌*◌, ◌^◌, ◌<◌, ◌≡◌, refl, sym, ap, ◌∙◌, arith, str_eq, Bool, true, false, List, [],
  ◌∷◌, ◌++◌, length, slice, reverse, length-append, if◌then◌else◌, not, ◌&&◌, ◌||◌,
  slice-append_middle, drop-append_right, take, take_all, any,
}
use nswconfiguration.Common.Results.{ok, >>=-eq-ok, ok-injective}
use nswconfiguration.Common.Assoc.{Assoc}
use nswconfiguration.Bits.{BitString, value, bits, value-bits_fits}
use nswconfiguration.Stream.{total}
use nswconfiguration.Ptree.{Ptree}
use nswconfiguration.Utility.{not_used}
use nswconfiguration.Utility.Fmt.{BinaryFormat}
use nswconfiguration.Vmm.Tables.{NameSize, channel_name_size, bitreversed_registers}
use nswconfiguration.Vmm.Codec.{
  GlobalRegisters, global0, global1, build_global_config, build_channel_config, build_config,
  channel_loop, build_channel_register_map, has_register,
}
use nswconfiguration.Vmm.Fields.{size_of, table_of, field_bits}
use nswconfiguration.Vmm.Global.{slice-build_global_config, length-build_global_config}
use nswconfiguration.Vmm.Channels.{length-channel_loop}
use mathlib.Core.List.{reverse-reverse}

-- The bits of the global registers of one kind, and those of a channel.
unfoldable pub global_part : GlobalRegisters → BitString → BitString
global_part global1 s = slice 0 96 s
global_part global0 s = slice 1632 96 s

unfoldable pub channel_part : ℕ → BitString → BitString
channel_part channel s = slice (96 + 24 * (63 - channel)) 24 s

-- The number that the bits of a global register stand for.
unfoldable pub decode_global : NameSize → BitString → ℕ
decode_global (name, size) text =
    value (if any (str_eq name) bitreversed_registers then reverse text else text)

decode_global-field_bits :
    (row : NameSize) (v : ℕ) → v < 2 ^ row.1 → decode_global row (field_bits row v) ≡ v
unfolding decode_global field_bits
decode_global-field_bits (name, size) v h =
    ground (arith, reverse-reverse (bits size v), value-bits_fits size v h)

-- No name but that of unused bits stands twice in a table.
pub distinct : List NameSize → Bool
distinct [] = true
distinct (row ∷ rows) = (str_eq row.0 not_used || not (has_register row.0 rows)) && distinct rows

pub channel_table_distinct : distinct channel_name_size ≡ true
unfolding distinct has_register
channel_table_distinct = refl

pub distinct-once :
    (front : List NameSize) (row : NameSize) (back : List NameSize)
    → distinct (front ++ (row ∷ back)) ≡ true
    → str_eq row.0 not_used ≡ false
    → has_register row.0 back ≡ false
unfolding distinct
distinct-once [] row back h named = ground arith
distinct-once (other ∷ front) row back h named = ground (arith, distinct-once front row back)

module _ {Tree : Type 0} ⦃pt : Ptree Tree⦄ ⦃fmt : BinaryFormat⦄ where
  pub build_config_parts :
      (config : Tree) {s : BitString}
      → build_config config ≡ ok s
      → (first : BitString) × (m : Assoc (List ℕ)) × (channels : BitString) × (last : BitString)
        × (build_global_config config global1 ≡ ok first)
        × (build_channel_register_map config ≡ ok m)
        × (channel_loop m 64 ≡ ok channels)
        × (build_global_config config global0 ≡ ok last)
        × (s ≡ first ++ (channels ++ last))
  unfolding build_config build_channel_config
  build_config_parts config e =
      let (first, p, q) = >>=-eq-ok (build_global_config config global1) _ e in
      let (channels, r, t) = >>=-eq-ok (build_channel_config config) _ q in
      let (m, pm, pc) = >>=-eq-ok (build_channel_register_map config) _ r in
      let (last, pl, same) = >>=-eq-ok (build_global_config config global0) _ t in
      (first, m, channels, last, p, pm, pc, pl, sym (ok-injective same))

  -- A bit string that buildConfig returns has NBITS_TOTAL = 1728 bits.
  pub length-build_config :
      (config : Tree) {s : BitString} → build_config config ≡ ok s → length s ≡ 1728
  length-build_config config e =
      let (first, m, channels, last, p, pm, pc, pl, same) = build_config_parts config e in
      ap length same
      ∙ omega (
        arith,
        length-append first (channels ++ last),
        length-append channels last,
        length-build_global_config config global1 p,
        length-channel_loop m 64 pc,
        length-build_global_config config global0 pl,
      )

  pub global_part-build_config :
      (config : Tree) (type : GlobalRegisters) {s : BitString}
      → build_config config ≡ ok s
      → build_global_config config type ≡ ok (global_part type s)
  unfolding global_part
  global_part-build_config config global1 {s} e =
      let (first, m, channels, last, p, pm, pc, pl, same) = build_config_parts config e in
      p
      ∙ ap ok (
          sym (
            slice-append_middle 0 96 [] first (channels ++ last) refl
              (sym (length-build_global_config config global1 p)))
          ∙ ap (slice 0 96) (sym same))
  global_part-build_config config global0 {s} e =
      let (first, m, channels, last, p, pm, pc, pl, same) = build_config_parts config e in
      pl
      ∙ ap ok (
          sym (
            ap (slice 1632 96) same
            ∙ ap (take 96) (
                drop-append_right 1632 1536 first (channels ++ last)
                  (omega (arith, length-build_global_config config global1 p))
                ∙ drop-append_right 1536 0 channels last
                    (omega (arith, length-channel_loop m 64 pc)))
            ∙ take_all 96 last (sym (length-build_global_config config global0 pl))))

  -- Where buildConfig returns a bit string, each register of a table that is not unused has a value in
  -- the configuration, and is decoded to it from its place behind the rows `front` of the table.
  pub decode_global-build_config :
      (config : Tree) (type : GlobalRegisters) (front : List NameSize) (row : NameSize)
      (back : List NameSize) {s : BitString}
      → table_of type ≡ front ++ (row ∷ back)
      → str_eq row.0 not_used ≡ false
      → build_config config ≡ ok s
      → pt.get_unsigned config row.0
        ≡ ok (decode_global row (slice (total size_of front) row.1 (global_part type s)))
  decode_global-build_config config type front row back split named e =
      let (v, p, fits, same) =
        slice-build_global_config config type front row back split named
          (global_part-build_config config type e) in
      p ∙ ap ok (sym (ap (decode_global row) same ∙ decode_global-field_bits row v fits))
