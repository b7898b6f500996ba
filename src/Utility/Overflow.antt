-- ===== src/Utility/Overflow.antt =====
-- checkOverflow lets exactly the values through that fit.
use nswconfiguration.Common.{ℕ, ◌^◌, ◌≤◌, ◌<◌, ◌≡◌, arith, String}
use nswconfiguration.Common.Results.{ok, err, register_overflow}
use nswconfiguration.Utility.{check_overflow}

pub check_overflow-fits :
    (size v : ℕ) (name : String) {u : Unit {0}} → check_overflow size v name ≡ ok u → v < 2 ^ size
unfolding check_overflow
check_overflow-fits size v name h = ground arith

pub check_overflow_passes :
    (size v : ℕ) (name : String) → v < 2 ^ size → check_overflow size v name ≡ ok tt
unfolding check_overflow
check_overflow_passes size v name h = ground arith

pub check_overflow_throws :
    (size v : ℕ) (name : String)
    → 2 ^ size ≤ v
    → check_overflow size v name ≡ err (register_overflow name)
unfolding check_overflow
check_overflow_throws size v name h = ground arith
