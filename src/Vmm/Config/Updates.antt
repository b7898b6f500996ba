-- ===== src/Vmm/Config/Updates.antt =====
-- setGlobalRegister of src/VMMConfig.cpp, in the bits: what it writes, what it leaves alone, and
-- what is left when it throws.
use nswconfiguration.Common.{
  ℕ, ◌^◌, ◌≤◌, ◌≡◌, ◌≢◌, refl, sym, ap, ◌∙◌, arith, String, str_eq, Bool, true, false, List, [],
  ◌∷◌, ◌++◌, ◌||◌, slice,
}
use nswconfiguration.Common.Results.{Result, ok, err, ok-injective, vmm_config_issue}
use nswconfiguration.Bits.{BitString}
use nswconfiguration.Stream.{total}
use nswconfiguration.Text.{has_dot}
use nswconfiguration.Ptree.{Ptree}
use nswconfiguration.Utility.{not_used}
use nswconfiguration.Utility.Fmt.{BinaryFormat}
use nswconfiguration.Vmm.Tables.{NameSize}
use nswconfiguration.Vmm.Codec.{
  GlobalRegisters, global0, global1, build_config, has_register, global_register_exists,
}
use nswconfiguration.Vmm.Fields.{size_of, table_of}
use nswconfiguration.Vmm.Global.{slice-build_global_config}
use nswconfiguration.Vmm.RoundTrip.{
  global_part, decode_global, decode_global-build_config, global_part-build_config,
}
use nswconfiguration.Vmm.Config.{VmmConfig, set_global_register, rebuild, rebuilt, as_config_issue}
use nswconfiguration.Vmm.Config.Consistency.{IsConsistent, set_global_register-Ends}
use text.Mathlib.TextPositions.{eq_refl}

has_register-split :
    (front : List NameSize) (row : NameSize) (back : List NameSize)
    → has_register row.0 (front ++ (row ∷ back)) ≡ true
unfolding has_register
has_register-split [] row back = rw (eq_refl row.0)
has_register-split (other ∷ front) row back = ground (arith, has_register-split front row back)

or_left : (a b : Bool) → a ≡ true → (a || b) ≡ true
or_left a b h = rw h

or_right : (a b : Bool) → b ≡ true → (a || b) ≡ true
or_right true b h = refl
or_right false b h = h

global_register_exists-split :
    (type : GlobalRegisters) (front : List NameSize) (row : NameSize) (back : List NameSize)
    → table_of type ≡ front ++ (row ∷ back)
    → global_register_exists row.0 ≡ true
unfolding global_register_exists
global_register_exists-split global0 front row back split =
    or_left _ _ (ap (has_register row.0) split ∙ has_register-split front row back)
global_register_exists-split global1 front row back split =
    or_right _ _ (ap (has_register row.0) split ∙ has_register-split front row back)

module _ {Tree : Type 0} ⦃pt : Ptree Tree⦄ ⦃fmt : BinaryFormat⦄ where
  -- A known register: the tree is changed, and then the bit string is built anew.
  set_global_register_known :
      (s : VmmConfig Tree) (name : String) (v : ℕ)
      → global_register_exists name ≡ true
      → set_global_register s name v ≡ as_config_issue (rebuild s (pt.put s.config name v))
  unfolding set_global_register
  set_global_register_known s name v h = rw h

  -- Whatever happens, the tree has the new value.
  config-set_global_register :
      (s : VmmConfig Tree) (name : String) (v : ℕ)
      → global_register_exists name ≡ true
      → (set_global_register s name v).0.config ≡ pt.put s.config name v
  unfolding rebuild rebuilt
  config-set_global_register s name v h =
      ap (λ p. p.0.config) (set_global_register_known s name v h)
      ∙ by_result (build_config (pt.put s.config name v))
    where
      by_result :
          (r : Result BitString)
          → (as_config_issue (rebuilt s (pt.put s.config name v) r)).0.config
            ≡ pt.put s.config name v
      by_result (ok b) = unfold as_config_issue in refl
      by_result (err e) = unfold as_config_issue in refl

  failed_build :
      (s : VmmConfig Tree) (name : String) (v : ℕ) (r : Result BitString)
      → ((b : BitString) → r ≢ ok b)
      → as_config_issue (rebuilt s (pt.put s.config name v) r)
        ≡ (record s { config = pt.put s.config name v }, err vmm_config_issue)
  unfolding as_config_issue rebuilt
  failed_build s name v (ok b) h = absurd (h b refl)
  failed_build s name v (err e) h = refl

  module _ (s : VmmConfig Tree) (type : GlobalRegisters) (front : List NameSize) (row : NameSize)
      (back : List NameSize) (split : table_of type ≡ front ++ (row ∷ back))
      (named : str_eq row.0 not_used ≡ false) (v : ℕ) where
    known : global_register_exists row.0 ≡ true
    known = global_register_exists-split type front row back split

    -- For a register of a table that is not unused: after a call that does not throw, the register
    -- decodes from the bit string to the value that was set.
    pub decode_global-set_global_register :
        (set_global_register s row.0 v).1 ≡ ok tt
        → decode_global row (
            slice
              (total size_of front)
              row.1
              (global_part type (set_global_register s row.0 v).0.bitstring))
          ≡ v
    decode_global-set_global_register h = ok-injective (
        sym (
          decode_global-build_config (set_global_register s row.0 v).0.config type front row back
            split named (set_global_register-Ends s row.0 v h))
        ∙ ap (λ t. pt.get_unsigned t row.0) (config-set_global_register s row.0 v known)
        ∙ pt.get_unsigned-put_self s.config row.0 v)

    -- A tree with a value that is too wide for its register cannot be built.
    put_overflow-unbuildable :
        2 ^ row.1 ≤ v → (b : BitString) → build_config (pt.put s.config row.0 v) ≢ ok b
    put_overflow-unbuildable wide b e =
        let tree = pt.put s.config row.0 v in
        let (w, p, fits, same) =
          slice-build_global_config tree type front row back split named
            (global_part-build_config tree type e) in
        let q : v ≡ w = ok-injective (sym (pt.get_unsigned-put_self s.config row.0 v) ∙ p) in
        absurd (omega (arith, q))

    -- For a register of a table that is not unused: a value that is too wide is refused with
    -- VmmConfigIssue and the bit string stays, but the tree keeps the value, and no bit string can be
    -- built from that tree.
    pub set_global_register_overflow :
        2 ^ row.1 ≤ v
        → (set_global_register s row.0 v
            ≡ (record s { config = pt.put s.config row.0 v }, err vmm_config_issue))
          × ((b : BitString) → build_config (pt.put s.config row.0 v) ≢ ok b)
    set_global_register_overflow wide = (
      set_global_register_known s row.0 v known
          ∙ unfold rebuild in (failed_build s row.0 v _ (put_overflow-unbuildable wide)),
      put_overflow-unbuildable wide,
    )

  -- On a consistent object, setting a known register, whose name has no dot, leaves what another
  -- register of a table, not unused and without a dot in its name, decodes to, if it does not throw.
  pub decode_global-set_global_register_ne :
      (s : VmmConfig Tree) (name : String) (v : ℕ) (type : GlobalRegisters) (front : List NameSize)
      (row : NameSize) (back : List NameSize)
      → table_of type ≡ front ++ (row ∷ back)
      → str_eq row.0 not_used ≡ false
      → global_register_exists name ≡ true
      → has_dot name ≡ false
      → has_dot row.0 ≡ false
      → name ≢ row.0
      → IsConsistent s
      → (set_global_register s name v).1 ≡ ok tt
      → decode_global row (
          slice
            (total size_of front)
            row.1
            (global_part type (set_global_register s name v).0.bitstring))
        ≡ decode_global row (slice (total size_of front) row.1 (global_part type s.bitstring))
  decode_global-set_global_register_ne s name v type front row back split named exists plain
        plain_row other c h =
      ok-injective (
        sym (
          decode_global-build_config (set_global_register s name v).0.config type front row back
            split named (set_global_register-Ends s name v h))
        ∙ ap (λ t. pt.get_unsigned t row.0) (config-set_global_register s name v exists)
        ∙ pt.get_unsigned-put_ne s.config name row.0 v plain plain_row other
        ∙ decode_global-build_config s.config type front row back split named c)
