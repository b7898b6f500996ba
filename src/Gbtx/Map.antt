-- ===== src/Gbtx/Map.antt =====
-- struct gbtx::regMap of NSWConfiguration/Types.h.
use nswconfiguration.Common.{ℕ, String, List}

pub record RegMap : Type 0 where
  pub name : String
  pub description : String
  pub shifts : List ℕ
  pub registers : List ℕ

-- gbtx::regMap{name, description, shifts, registers}
abbrev pub reg_map : String → String → List ℕ → List ℕ → RegMap
reg_map n d ss rs = record { name = n; description = d; shifts = ss; registers = rs }
