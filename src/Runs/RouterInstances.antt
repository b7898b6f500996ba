-- ===== src/Runs/RouterInstances.antt =====
-- A board whose outputs are a function of the line, and the theorems on src/hw/Router.cpp over it.
use nswconfiguration.Common.{
  ℕ, ◌≡◌, refl, arith, String, str_eq, eq_iff, Bool, true, false, List, [], ◌++◌,
}
use nswconfiguration.Common.Results.{ok}
use nswconfiguration.Text.{codes}
use nswconfiguration.Text.Numbers.{stoul}
use nswconfiguration.Geo.Names.{tokenize_string}
use nswconfiguration.Geo.Identifier.{stgc, wheel_c, no_detector, no_wheel}
use nswconfiguration.Router.Board.{GpioLink}
use nswconfiguration.Router.Id.{Router, get_id, is_old_naming_convention}
use nswconfiguration.Router.Configure.{write_configuration}
use nswconfiguration.Router.IdFields.{Gives, Fields, get_id-old}
use nswconfiguration.Router.Lines.{update}
use nswconfiguration.Router.Configured.{
  settled, id_lines, control_lines, write_configuration-outputs,
}

abbrev Levels : Type 0
Levels = String → Bool

set_here : (name : String) (v : Bool) (b : Levels) → update name v b name ≡ v
set_here name v b = ground (arith, eq_iff name name)

not_here :
    (name other : String) (v : Bool) (b : Levels)
    → str_eq name other ≡ false
    → update name v b other ≡ b other
not_here name other v b h = rw h refl

-- Every line keeps what is written to it.
latches : GpioLink Levels
latches = record {
  send_gpio = λ name v b. (update name v b, ok tt);
  read_gpio = λ name b. (b, ok (b name));
  write_xilinx_fpga = λ file b. (b, ok tt);
  snooze = λ b. b;
  online = λ b. true;
  output = λ name. true;
  level = λ b name. b name;
  send-ok = λ b name v up. (refl, refl);
  send-level = λ b name v up out. set_here name v b;
  send-level_ne = λ b name other v out h. not_here name other v b h;
  read-ok = λ b name up. (b name, refl, refl);
  read-level = λ b name other out. refl;
  upload-ok = λ b file up. (refl, refl);
  upload-level = λ b file other out. refl;
  snooze-online = λ b up. refl;
  snooze-level = λ b other out. refl;
}

abbrev address : List ℕ
address = codes "sTGC-C/V0/SCA/Router/S9/L5/P"

abbrev router : Router
router = record {
  sca_address = address;
  geo_info = record {
    sca_address = address;
    elements = tokenize_string b'/' address;
    no_geo_id = false;
    detector = stgc;
    wheel = wheel_c;
    resource_type = "Router";
    sector = 9;
    layer = 5;
    radius = 255;
  };
  sector = ok [];
  firmware = "";
}

-- A name of the old form, in a sector that does not exist.
abbrev old_router : Router
old_router = record {
  sca_address = codes "Router_L3";
  geo_info = record {
    sca_address = codes "Router_L3";
    elements = [];
    no_geo_id = true;
    detector = no_detector;
    wheel = no_wheel;
    resource_type = "Router";
    sector = 255;
    layer = 255;
    radius = 255;
  };
  sector = ok (codes "A17");
  firmware = "";
}

old : is_old_naming_convention old_router ≡ true
unfolding is_old_naming_convention
old = refl

seventeen : stoul 10 (codes "17") ≡ ok 17
unfolding stoul
seventeen = refl

three : stoul 10 (codes "3") ≡ ok 3
unfolding stoul
three = refl

get_id-old_example : (id : ℕ) × Gives (get_id old_router) id × Fields id 16 3 0
get_id-old_example =
    get_id-old old_router b'A' (codes "17") 17 3 old refl seventeen three (omega arith)
      (omega arith) (omega arith)

-- The ID of the router: 9 * 16 + 5 * 2 + 1.
has_id : (get_id router []).1 ≡ ok 155
unfolding get_id
has_id = refl

abbrev low : Levels
low name = false

write_configuration-outputs_example :
    ((write_configuration ⦃link = latches⦄ router low).1 ≡ ok tt)
    × ((name : String)
        → latches.output name ≡ true
        → latches.level (write_configuration ⦃link = latches⦄ router low).0 name
          ≡ settled (id_lines 155 ++ control_lines) (latches.level low) name)
unfolding latches
write_configuration-outputs_example =
    write_configuration-outputs ⦃link = latches⦄ router 155 low has_id refl
