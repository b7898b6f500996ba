-- ===== src/Vmm/ChannelRoundTrip.antt =====
-- The channel registers of src/VMMCodec.cpp's bit string against a decoder.
use nswconfiguration.Common.{
  ℕ, ◌+◌, ◌-◌, ◌*◌, ◌^◌, ◌<◌, ◌≡◌, sym, ap, ◌∙◌, arith, String, str_eq, true, false, List, [], ◌∷◌,
  ◌++◌, slice, get_elem?, Option, none, some, slice-append_left, drop-append_right, take, All-get,
}
use nswconfiguration.Common.Results.{ok, at, ok-injective}
use nswconfiguration.Common.Assoc.{Assoc, lookup}
use nswconfiguration.Bits.{BitString, value, value-bits_fits}
use nswconfiguration.Stream.{total}
use nswconfiguration.Ptree.{Ptree}
use nswconfiguration.Utility.{not_used}
use nswconfiguration.Utility.Fmt.{BinaryFormat}
use nswconfiguration.Vmm.Tables.{NameSize, channel_name_size}
use nswconfiguration.Vmm.Codec.{
  global1, build_config, channel_values, channel_bits, channel_value, build_channel_register_map,
  channel_register_loop, has_register,
}
use nswconfiguration.Vmm.Fields.{size_of}
use nswconfiguration.Vmm.Global.{length-build_global_config}
use nswconfiguration.Vmm.ChannelMap.{channel_register_loop-row, channel_values-IsChannelArray}
use nswconfiguration.Vmm.Channels.{length-channel_loop, slice-channel_loop, slice-channel_bits}
use nswconfiguration.Vmm.RoundTrip.{
  channel_part, distinct, distinct-once, channel_table_distinct, build_config_parts,
}
use mathlib.Core.Path.{subst}

at-ok : (o : Option ℕ) {v : ℕ} → at o ≡ ok v → o ≡ some v
at-ok none e = cc
at-ok (some w) e = ap some (ok-injective e)

channel_value-lookup :
    (m : Assoc (List ℕ)) (name : String) (channel : ℕ) {v : ℕ} {values : List ℕ}
    → str_eq name not_used ≡ false
    → lookup name m ≡ some values
    → channel_value m name channel ≡ ok v
    → get_elem? values channel ≡ some v
channel_value-lookup m name channel {v} {values} named found e =
    at-ok (get_elem? values channel) (found_value e)
  where
    found_value : channel_value m name channel ≡ ok v → at (get_elem? values channel) ≡ ok v
    found_value e = unfold channel_value in (rw (named, found) at e)

module _ {Tree : Type 0} ⦃pt : Ptree Tree⦄ ⦃fmt : BinaryFormat⦄ where
  channel_part-build_config :
      (config : Tree) (channel : ℕ) {s : BitString}
      → channel < 64
      → build_config config ≡ ok s
      → (m : Assoc (List ℕ)) × (build_channel_register_map config ≡ ok m)
        × (channel_bits m channel ≡ ok (channel_part channel s))
  unfolding channel_part
  channel_part-build_config config channel {s} h e =
      let (first, m, channels, last, p, pm, pc, pl, same) = build_config_parts config e in
      (
        m,
        pm,
        slice-channel_loop m 64 channel h pc
            ∙ ap ok (
                sym (
                  ap (slice (96 + 24 * (63 - channel)) 24) same
                  ∙ ap (take 24) (
                      drop-append_right (96 + 24 * (63 - channel)) (24 * (63 - channel)) first
                        (channels ++ last)
                        (omega (arith, length-build_global_config config global1 p)))
                  ∙ slice-append_left (24 * (63 - channel)) 24 channels last
                      (omega (arith, length-channel_loop m 64 pc)))),
      )

  -- Where buildConfig returns a bit string, each register of the channel table that is not unused has
  -- an array of values, and for each of the 64 channels the value in it is that of the register's
  -- bits, which stand behind the rows `back` in the part of the channel.
  pub decode_channel-build_config :
      (config : Tree) (channel : ℕ) (front : List NameSize) (row : NameSize) (back : List NameSize)
      {s : BitString}
      → channel < 64
      → channel_name_size ≡ front ++ (row ∷ back)
      → str_eq row.0 not_used ≡ false
      → build_config config ≡ ok s
      → (values : List ℕ) × (channel_values config row ≡ ok values)
        × (get_elem? values channel
            ≡ some (value (slice (total size_of back) row.1 (channel_part channel s))))
  decode_channel-build_config config channel front row back {s} h split named e =
      let (m, pm, pb) = channel_part-build_config config channel h e in
      let (v, pv, same) = slice-channel_bits m channel front row back split pb in
      let (values, stored, found) =
        channel_register_loop-row config front row back [] named once (as_loop m pm) in
      let found_v = channel_value-lookup m row.0 channel named found pv in
      let fits =
        All-get (λ w. w < 2 ^ row.1) values channel
          (channel_values-IsChannelArray config row stored).fits found_v in
      (values, stored, found_v ∙ ap some (sym (ap value same ∙ value-bits_fits row.1 v fits)))
    where
      once : has_register row.0 back ≡ false
      once =
          distinct-once front row back (subst (λ t. distinct t ≡ true) split channel_table_distinct)
            named

      as_loop :
          (m : Assoc (List ℕ))
          → build_channel_register_map config ≡ ok m
          → channel_register_loop config (front ++ (row ∷ back)) [] ≡ ok m
      as_loop m p =
          ap (λ t. channel_register_loop config t []) (sym split)
          ∙ unfold build_channel_register_map in p
