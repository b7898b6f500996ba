-- ===== src/Router/Configured.antt =====
-- The outputs of a board after writeConfiguration of src/hw/Router.cpp.
use nswconfiguration.Common.{
  ℕ, zero, suc, ◌≡◌, refl, sym, ◌∙◌, arith, String, str_eq, Bool, true, false, List, [], ◌∷◌, ◌++◌,
  if◌then◌else◌,
}
use nswconfiguration.Common.Results.{ok}
use nswconfiguration.Common.Actions.{Action, ◌>>=◌, ◌>>◌, lift}
use nswconfiguration.Bits.{test_bit}
use nswconfiguration.Router.Board.{GpioLink}
use nswconfiguration.Router.Id.{Router, get_id}
use nswconfiguration.Router.Configure.{
  pause, send_and_readback_gpio, checks_loop, write_soft_reset, resets_loop, id_loop, write_sca_id,
  write_jtag_bitfile_configuration, write_configuration, max_resets, max_gpio_checks,
  router_id_lines,
}
use nswconfiguration.Router.Lines.{
  update, Triple, triple-bind, Shows, Keeps, lift-Keeps, bind-Keeps, if-Keeps, pause-Keeps,
  send_and_readback_gpio-Shows, checks_loop-Keeps, upload-Keeps,
}
use mathlib.Core.Path.{subst}

-- Levels after lines were set, the last one first in the list.
abbrev pub settled : List (String × Bool) → (String → Bool) → String → Bool
settled [] f = f
settled ((name, v) ∷ earlier) f = update name v (settled earlier f)

-- The lines that the reset leaves, and the ID's.
abbrev pub control_lines : List (String × Bool)
control_lines = ("softReset", false) ∷ ("ctrlMod1", false) ∷ ("ctrlMod0", false) ∷ []

abbrev pub id_lines : ℕ → List (String × Bool)
id_lines id =
    ("routerId7", test_bit id 7)
    ∷ ("routerId6", test_bit id 6)
    ∷ ("routerId5", test_bit id 5)
    ∷ ("routerId4", test_bit id 4)
    ∷ ("routerId3", test_bit id 3)
    ∷ ("routerId2", test_bit id 2)
    ∷ ("routerId1", test_bit id 1)
    ∷ ("routerId0", test_bit id 0)
    ∷ []

abbrev reset : (String → Bool) → String → Bool
reset = settled control_lines

update_twice :
    (name : String) (v w : Bool) (f : String → Bool) (o : String)
    → update name v (update name w f) o ≡ update name v f o
update_twice name v w f o = ground arith

reset_twice : (f : String → Bool) (o : String) → reset (reset f) o ≡ reset f o
reset_twice f o = in_turn (str_eq "softReset" o) (str_eq "ctrlMod1" o) (str_eq "ctrlMod0" o) (f o)
  where
    in_turn :
        (s m n v : Bool)
        → (if s
            then false
            else if m
            then false
            else if n
            then false
            else if s
            then false
            else if m
            then false
            else if n
            then false
            else v)
          ≡ (if s then false else if m then false else if n then false else v)
    in_turn true m n v = refl
    in_turn false true n v = refl
    in_turn false false true v = refl
    in_turn false false false v = refl

module _ {Board : Type 0} ⦃link : GpioLink Board⦄ where
  Shows-same :
      (f g : String → Bool) → ((o : String) → f o ≡ g o) → (b : Board) → Shows f b → Shows g b
  Shows-same f g e b h = record { up = h.up; levels = λ o out. h.levels o out ∙ e o }

  -- One line after another
  send_next :
      (f g : String → Bool) (name : String) (v : Bool) (next : Action Board (Unit {0}))
      → Triple (Shows (update name v f)) next (λ u. Shows g)
      → Triple (Shows f) (send_and_readback_gpio name v >> next) (λ u. Shows g)
  send_next f g name v next h =
      triple-bind (λ u. Shows (update name v f)) (λ u. Shows g) (send_and_readback_gpio name v)
        (λ u. next) (send_and_readback_gpio-Shows f name v) (λ u. h)

  pause_next :
      (f g : String → Bool) (next : Action Board (Unit {0}))
      → Triple (Shows f) next (λ u. Shows g)
      → Triple (Shows f) (pause >> next) (λ u. Shows g)
  pause_next f g next h =
      triple-bind (λ u. Shows f) (λ u. Shows g) pause (λ u. next) (pause-Keeps f) (λ u. h)

  write_soft_reset-Shows :
      (f : String → Bool) → Triple {State = Board} (Shows f) write_soft_reset (λ u. Shows (reset f))
  unfolding write_soft_reset
  write_soft_reset-Shows f b h =
      let f1 = update "ctrlMod0" false f in
      let f2 = update "ctrlMod1" false f1 in
      let f3 = update "softReset" true f2 in
      let f4 = update "softReset" false f3 in
      let (u, e, shows) =
        send_next f f4 "ctrlMod0" false _
          (send_next f1 f4 "ctrlMod1" false _ (
            send_next f2 f4 "softReset" true _
              (pause_next f3 f4 _ (send_next f3 f4 "softReset" false _ (pause-Keeps f4)))))
          b h in
      (u, e, Shows-same f4 (reset f) (update_twice "softReset" false true f2) _ shows)

  -- A round of the resets, before other rounds that keep what it leaves.
  reset_round :
      (f : String → Bool) (rest : Action Board (Unit {0}))
      → Keeps (reset f) rest
      → Triple
          (Shows f)
          (write_soft_reset
            >> (checks_loop max_gpio_checks >>= λ good.
                if good then lift (ok tt) else pause >> rest))
          (λ u. Shows (reset f))
  reset_round f rest h =
      let g = reset f in
      triple-bind (λ u. Shows g) (λ u. Shows g) write_soft_reset _ (write_soft_reset-Shows f)
        λ u.
          bind-Keeps g (checks_loop max_gpio_checks) _ (checks_loop-Keeps g max_gpio_checks)
            λ good. if-Keeps g good _ _ (lift-Keeps g tt) (pause_next g g rest h)

  resets_loop-Keeps :
      (left : ℕ) (f : String → Bool) → Keeps {Board = Board} (reset f) (resets_loop left)
  unfolding resets_loop
  resets_loop-Keeps zero f b h = lift-Keeps (reset f) tt b h
  resets_loop-Keeps (suc left) f b h =
      let (u, e, shows) =
        reset_round (reset f) (resets_loop left) (resets_loop-Keeps left (reset f)) b h in
      (u, e, Shows-same (reset (reset f)) (reset f) (reset_twice f) _ shows)

  resets_loop-Shows :
      (left : ℕ) (f : String → Bool)
      → Triple {State = Board} (Shows f) (resets_loop (suc left)) (λ u. Shows (reset f))
  unfolding resets_loop
  resets_loop-Shows left f = reset_round f (resets_loop left) (resets_loop-Keeps left f)

  id_loop-Shows :
      (id : ℕ) (f : String → Bool)
      → Triple {State = Board}
          (Shows f)
          (id_loop router_id_lines 0 id)
          (λ u. Shows (settled (id_lines id) f))
  unfolding id_loop
  id_loop-Shows id f =
      let g = settled (id_lines id) f in
      send_next _ g "routerId0" _ _ (
        send_next _ g "routerId1" _ _ (
          send_next _ g "routerId2" _ _ (
            send_next _ g "routerId3" _ _ (
              send_next _ g "routerId4" _ _ (
                send_next _ g "routerId5" _ _ (
                  send_next _ g "routerId6" _ _
                    (send_next _ g "routerId7" _ _ (lift-Keeps g tt))))))))

  -- For a router that has an ID, over a board that answers, writeConfiguration does not throw,
  -- whatever the checks of the lines give. The outputs then show the ID at routerId0 to routerId7,
  -- control mode 0 and no reset, and every other output is as before.
  pub write_configuration-outputs :
      (r : Router) (id : ℕ) (b : Board)
      → (get_id r []).1 ≡ ok id
      → link.online b ≡ true
      → ((write_configuration r b).1 ≡ ok tt)
        × ((name : String)
            → link.output name ≡ true
            → link.level (write_configuration r b).0 name
              ≡ settled (id_lines id ++ control_lines) (link.level b) name)
  unfolding write_configuration write_sca_id
  write_configuration-outputs r id b has_id up =
      let f = link.level b in
      let g = settled (id_lines id) (reset f) in
      let write_id =
        subst
          (λ i.
            Triple {State = Board} {A = Unit {0}} (Shows (reset f))
              (lift i >>= id_loop router_id_lines 0) (λ u. Shows g))
          (sym has_id) (id_loop-Shows id (reset f)) in
      let (u, e, shows) =
        triple-bind (λ u. Shows f) (λ u. Shows g) (write_jtag_bitfile_configuration r) _
          (upload-Keeps f r)
          (λ u.
            triple-bind (λ u. Shows (reset f)) (λ u. Shows g) (resets_loop max_resets) _
              (resets_loop-Shows 2 f) (λ u. write_id))
          b (record { up = up; levels = λ name out. refl }) in
      (e, shows.levels)
