-- ===== src/Vmm/Config/Consistency.antt =====
-- The bit string of a VMMConfig is the one that its tree is built into (src/VMMConfig.cpp).
use nswconfiguration.Common.{
  ℕ, ◌≡◌, refl, ap, String, Bool, true, false, length, List, [], ◌∷◌, not, if◌then◌else◌,
}
use nswconfiguration.Common.Results.{Result, ok, err, >>=-eq-ok, ok-injective}
use nswconfiguration.Common.Results.{no_such_vmm_register}
use nswconfiguration.Common.Results.{and_then}
use nswconfiguration.Bits.{BitString}
use mathlib.Core.Path.{subst}
use nswconfiguration.Ptree.{Ptree}
use nswconfiguration.Utility.Fmt.{BinaryFormat}
use nswconfiguration.Utility.Bytes.{length-string_to_byte_vector}
use nswconfiguration.Vmm.Codec.{build_config, global_register_exists}
use nswconfiguration.Vmm.RoundTrip.{length-build_config}
use nswconfiguration.Vmm.Config.{
  VmmConfig, vmm_config, rebuild, rebuilt, store_values, as_config_issue, and_then,
  set_global_register, set_channel_register_all_channels, set_channel_register_one_channel,
  set_monitor_output, changed_values, get_byte_vector,
}

-- The setters that the others are made of.
pub data Update : Type 0 where
  global : String → ℕ → Update
  all_channels : String → ℕ → Update
  one_channel : String → ℕ → ℕ → Update
  monitor_output : ℕ → ℕ → Update

module _ {Tree : Type 0} ⦃pt : Ptree Tree⦄ ⦃fmt : BinaryFormat⦄ where
  abbrev pub IsConsistent : VmmConfig Tree → Type 0
  IsConsistent s = build_config s.config ≡ ok s.bitstring

  unfoldable pub update : Update → VmmConfig Tree → VmmConfig Tree × Result (Unit {0})
  update (global name v) s = set_global_register s name v
  update (all_channels name v) s = set_channel_register_all_channels s name v
  update (one_channel name v channel) s = set_channel_register_one_channel s name v channel
  update (monitor_output channel_id param) s = set_monitor_output s channel_id param

  -- Setters one after another, up to the first exception.
  unfoldable pub updates : List Update → VmmConfig Tree → VmmConfig Tree × Result (Unit {0})
  updates [] s = (s, ok tt)
  updates (u ∷ us) s = and_then (update u s) (updates us)

  -- What a method that did not throw leaves is consistent.
  abbrev Ends : VmmConfig Tree × Result (Unit {0}) → Type 0
  Ends p = p.1 ≡ ok tt → IsConsistent p.0

  rebuilt-Ends :
      (s : VmmConfig Tree) (tree : Tree) (r : Result BitString)
      → build_config tree ≡ r
      → Ends (rebuilt s tree r)
  unfolding rebuilt
  rebuilt-Ends s tree (ok b) e h = e
  rebuilt-Ends s tree (err i) e h = cc

  as_config_issue-Ends :
      (p : VmmConfig Tree × Result (Unit {0})) → Ends p → Ends (as_config_issue p)
  unfolding as_config_issue
  as_config_issue-Ends (s, ok u) e h = e h
  as_config_issue-Ends (s, err i) e h = cc

  and_then-Ends :
      (p : VmmConfig Tree × Result (Unit {0}))
      (f : VmmConfig Tree → VmmConfig Tree × Result (Unit {0}))
      → ((s : VmmConfig Tree) → p ≡ (s, ok tt) → Ends (f s))
      → Ends (and_then p f)
  unfolding and_then
  and_then-Ends (s, ok u) f e h = e s refl h
  and_then-Ends (s, err i) f e h = cc

  pub set_global_register-Ends :
      (s : VmmConfig Tree) (name : String) (v : ℕ) → Ends (set_global_register s name v)
  unfolding set_global_register
  set_global_register-Ends s name v = by_test (global_register_exists name)
    where
      by_test :
          (b : Bool)
          → Ends (
              if not b
              then (s, err (no_such_vmm_register name))
              else as_config_issue (rebuild s (pt.put s.config name v)))
      by_test true h =
          as_config_issue-Ends (rebuild s (pt.put s.config name v))
            (rebuilt-Ends s (pt.put s.config name v) _ refl) h
      by_test false h = cc

  store_values-Ends :
      (s : VmmConfig Tree) (name : String) (r : Result (List ℕ)) → Ends (store_values s name r)
  unfolding store_values
  store_values-Ends s name (err i) h = cc
  store_values-Ends s name (ok values) h = rebuilt-Ends s _ _ refl h

  update-Ends : (u : Update) (s : VmmConfig Tree) → Ends (update u s)
  unfolding update set_channel_register_all_channels set_channel_register_one_channel
      set_monitor_output
  update-Ends (global name v) s = set_global_register-Ends s name v
  update-Ends (all_channels name v) s = rebuilt-Ends s _ _ refl
  update-Ends (one_channel name v channel) s =
      store_values-Ends s name (changed_values s name v channel)
  update-Ends (monitor_output channel_id param) s =
      and_then-Ends (set_global_register s "scmx" param)
        (λ t. set_global_register t "sm" channel_id)
        (λ t e. set_global_register-Ends t "sm" channel_id)

  -- From a consistent object, setters that do not throw lead to a consistent object.
  pub updates-IsConsistent :
      (us : List Update) (s : VmmConfig Tree)
      → IsConsistent s
      → (updates us s).1 ≡ ok tt
      → IsConsistent (updates us s).0
  unfolding updates
  updates-IsConsistent [] s c h = c
  updates-IsConsistent (u ∷ us) s c h =
      and_then-Ends (update u s) (updates us) (λ t e. updates-IsConsistent us t (from_update t e)) h
    where
      from_update : (t : VmmConfig Tree) → update u s ≡ (t, ok tt) → IsConsistent t
      from_update t e = subst IsConsistent (ap (λ p. p.0) e) (update-Ends u s (ap (λ p. p.1) e))

  -- The constructor makes a consistent object, or throws what the codec throws.
  pub vmm_config-IsConsistent :
      (tree : Tree) {s : VmmConfig Tree} → vmm_config tree ≡ ok s → IsConsistent s
  unfolding vmm_config
  vmm_config-IsConsistent tree {s} h =
      let (b, p, q) = >>=-eq-ok (build_config tree) _ h in subst IsConsistent (ok-injective q) p

  -- After the constructor and any setters that do not throw, 216 bytes go to the chip, and they are
  -- those of the present tree.
  pub get_byte_vector-updates :
      (tree : Tree) (us : List Update) {s : VmmConfig Tree}
      → vmm_config tree ≡ ok s
      → (updates us s).1 ≡ ok tt
      → (length (get_byte_vector (updates us s).0) ≡ 216)
        × (build_config (updates us s).0.config ≡ ok (updates us s).0.bitstring)
  unfolding get_byte_vector
  get_byte_vector-updates tree us {s} made h =
      let c = updates-IsConsistent us s (vmm_config-IsConsistent tree made) h in
      (length-string_to_byte_vector 216 _ (length-build_config _ c), c)
