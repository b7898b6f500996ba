-- ===== src/Vmm/Global.antt =====
-- The global registers' parts of the bit string (buildGlobalConfig of src/VMMCodec.cpp): where each
-- register stands, when they are written, and the exceptions otherwise.
use nswconfiguration.Common.{
  ℕ, ◌^◌, ◌≤◌, ◌<◌, ◌≡◌, refl, sym, ap, ◌∙◌, str_eq, false, List, ◌∷◌, ◌++◌, length, slice, All,
  All-map, ◌↔◌,
}
use nswconfiguration.Common.Results.{ok, err, bad_path, missing_vmm_register, register_overflow}
use nswconfiguration.Bits.{BitString}
use nswconfiguration.Stream.{
  stream, total, length-stream, slice-stream, stream_total, stream_fails, stream-All,
}
use nswconfiguration.Ptree.{Ptree}
use nswconfiguration.Utility.{not_used}
use nswconfiguration.Utility.Fmt.{BinaryFormat}
use nswconfiguration.Vmm.Tables.{NameSize}
use nswconfiguration.Vmm.Codec.{
  GlobalRegisters, global0, global1, global_field, build_global_config,
}
use nswconfiguration.Vmm.Fields.{
  size_of, table_of, field_bits, IsWritable, as_stream, length-global_field, global_field_total,
  global_field-IsWritable, global_field-eq-field_bits, global_field_missing, global_field_overflow,
}

module _ {Tree : Type 0} ⦃pt : Ptree Tree⦄ ⦃fmt : BinaryFormat⦄ where
  -- The register behind the rows `front` of its table stands behind their bits, with the value that
  -- the configuration holds, and that value fits.
  pub slice-build_global_config :
      (config : Tree) (type : GlobalRegisters) (front : List NameSize) (row : NameSize)
      (back : List NameSize) {s : BitString}
      → table_of type ≡ front ++ (row ∷ back)
      → str_eq row.0 not_used ≡ false
      → build_global_config config type ≡ ok s
      → (v : ℕ) × (pt.get_unsigned config row.0 ≡ ok v)
        × (v < 2 ^ row.1)
        × (slice (total size_of front) row.1 s ≡ field_bits row v)
  slice-build_global_config config type front row back split named e =
      let at_row =
        slice-stream (global_field config) size_of front row back (length-global_field config)
          (sym (ap (stream (global_field config)) split) ∙ sym (as_stream config type) ∙ e) in
      let (v, p, fits, small, same) = global_field-eq-field_bits config row at_row named in
      (v, p, fits, same)

  -- Each part has 96 bits.
  pub length-build_global_config :
      (config : Tree) (type : GlobalRegisters) {s : BitString}
      → build_global_config config type ≡ ok s
      → length s ≡ 96
  length-build_global_config config type e =
      length-stream (global_field config) size_of (table_of type) (length-global_field config)
        (sym (as_stream config type) ∙ e)
      ∙ total_96 type
    where
      total_96 : (t : GlobalRegisters) → total size_of (table_of t) ≡ 96
      total_96 global0 = refl
      total_96 global1 = refl

  -- A part is written exactly if each row of its table has at most 32 bits and is unused or has a
  -- value in the configuration that fits.
  pub build_global_config-ok_iff :
      (config : Tree) (type : GlobalRegisters)
      → ((s : BitString) × (build_global_config config type ≡ ok s))
        ↔ All (IsWritable config) (table_of type)
  build_global_config-ok_iff config type = (
    λ (s, e).
        All-map (table_of type) (global_field-IsWritable config)
          (stream-All (global_field config) (table_of type) (sym (as_stream config type) ∙ e)),
    λ h.
        let (s, e) =
          stream_total (global_field config) (table_of type)
            (All-map (table_of type) (global_field_total config) h) in
        (s, as_stream config type ∙ e),
  )

  module _ (config : Tree) (type : GlobalRegisters) (front : List NameSize) (row : NameSize)
      (back : List NameSize) (split : table_of type ≡ front ++ (row ∷ back))
      (before : All (IsWritable config) front) (named : str_eq row.0 not_used ≡ false) where
    -- Behind rows that can be written, a register, not unused, that the configuration lacks is reported
    -- by name.
    pub build_global_config_missing :
        pt.get_unsigned config row.0 ≡ err bad_path
        → build_global_config config type ≡ err (missing_vmm_register row.0)
    build_global_config_missing e =
        as_stream config type
        ∙ ap (stream (global_field config)) split
        ∙ stream_fails (global_field config) front row back _
            (All-map front (global_field_total config) before)
            (global_field_missing config row named e)

    -- Behind rows that can be written, the value of a register, not unused, that does not fit is
    -- reported as an overflow of this register.
    pub build_global_config_overflow :
        (v : ℕ)
        → pt.get_unsigned config row.0 ≡ ok v
        → 2 ^ row.1 ≤ v
        → build_global_config config type ≡ err (register_overflow row.0)
    build_global_config_overflow v e wide =
        as_stream config type
        ∙ ap (stream (global_field config)) split
        ∙ stream_fails (global_field config) front row back _
            (All-map front (global_field_total config) before)
            (global_field_overflow config row v named e wide)
