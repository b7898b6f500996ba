-- ===== src/Utility/Fmt.antt =====
-- The calls of the fmt library that write numbers in binary: fmt::format("{0:0{1}b}", value, width)
-- and the format {:08b}. fmt is not part of this repository's own code, so it is a parameter.
use nswconfiguration.Common.{ℕ, ◌^◌, ◌≤◌, ◌<◌, ◌≡◌, length}
use nswconfiguration.Bits.{BitString, value}

pub record BinaryFormat : Type 0 where
  pub format : ℕ → ℕ → BitString
  -- The digits stand for the number.
  pub value-format : (v width : ℕ) → value (format v width) ≡ v
  -- Zeros fill up to the width, which is a minimum.
  pub width-le-length : (v width : ℕ) → width ≤ length (format v width)
  -- No more digits than the width where the number fits in it.
  pub length-format : (v width : ℕ) → 0 < width → v < 2 ^ width → length (format v width) ≡ width
