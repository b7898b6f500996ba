-- ===== src/Router/Id.antt =====
-- The ID of a router in src/hw/Router.cpp. crashId reports an issue and returns.
use nswconfiguration.Common.{
  ℕ, ◌+◌, ◌-◌, ◌*◌, ◌%◌, ◌^◌, ◌==◌, ltb, Bool, true, false, not, ◌||◌, ◌&&◌, String, List, [], ◌∷◌,
  ◌++◌, length, take, drop, if◌then◌else◌,
}
use nswconfiguration.Common.Results.{Issue, Result, ok, err, out_of_range, router_hw_issue}
use nswconfiguration.Common.Actions.{Action, ◌>>=◌, ◌>>◌, lift}
use nswconfiguration.Text.Numbers.{stoul}
use nswconfiguration.Geo.Identifier.{ScaGeoIdentifier, Wheel, wheel_a, wheel_c, no_wheel}

-- The settings `sector` and `firmware` are what the configuration's tree gives for "Sector", which
-- may be missing, and for "firmware", which is empty when it is.
pub record Router : Type 0 where
  pub sca_address : List ℕ
  pub geo_info : ScaGeoIdentifier
  pub sector : Result (List ℕ)
  pub firmware : String

-- The issues that ers::error reports.
abbrev pub Reports : Type 0
Reports = List Issue

-- Router::crashId
unfoldable pub crash_id : Action Reports (Unit {0})
crash_id reports = (reports ++ (router_hw_issue ∷ []), ok tt)

unfoldable pub crash_if : Bool → Action Reports (Unit {0})
unfolding crash_id
crash_if bad = if bad then crash_id else lift (ok tt)

-- Router::isOldNamingConvention: the address is as long as "Router_LZ".
unfoldable pub is_old_naming_convention : Router → Bool
is_old_naming_convention r = length r.sca_address == 9

-- The character that a rest of the address begins with
unfoldable pub begins_with : ℕ → List ℕ → Bool
begins_with letter [] = false
begins_with letter (c ∷ s) = c == letter

-- Router::checkId: as long as "Router_LZ" or "sTGC-A/V0/SCA/Router/S9/L0/P", or longer by one; an
-- old name has an L before its last character.
unfoldable pub check_id : Router → Action Reports (Unit {0})
unfolding is_old_naming_convention crash_if begins_with
check_id r =
    let len = length r.sca_address in
    crash_if (not (len == 9 || (len == 28 || len == 29)))
    >> crash_if
        (is_old_naming_convention r && not (begins_with b'L' (drop (len - 2) r.sca_address)))

abbrev pub endcap_of : Wheel → ℕ
endcap_of wheel_a = 0
endcap_of wheel_c = 1
endcap_of no_wheel = 1

-- The first letter of the sector's name; an empty name has none.
unfoldable pub endcap_letter : List ℕ → Action Reports ℕ
unfolding crash_if
endcap_letter [] = crash_if true >> lift (ok 1)
endcap_letter (c ∷ s) =
    crash_if (not (c == b'A') && not (c == b'C')) >> lift (ok (if c == b'A' then 0 else 1))

-- Router::getIdEndcap
unfoldable pub get_id_endcap : Router → Action Reports ℕ
unfolding is_old_naming_convention endcap_letter
get_id_endcap r =
    if not (is_old_naming_convention r)
    then lift (ok (endcap_of r.geo_info.wheel))
    else lift r.sector >>= endcap_letter

-- Sector().substr(1, 2)
unfoldable pub sector_digits : List ℕ → Result (List ℕ)
sector_digits [] = err out_of_range
sector_digits (c ∷ s) = ok (take 2 s)

-- sect is an unsigned number of 64 bits, cast to eight.
unfoldable pub checked_sector : ℕ → Action Reports ℕ
unfolding crash_if
checked_sector sect =
    crash_if (ltb sect 1 || ltb 16 sect) >> lift (ok ((sect + 2 ^ 64 - 1) % 2 ^ 64 % 256))

-- Router::getIdSector
unfoldable pub get_id_sector : Router → Action Reports ℕ
unfolding is_old_naming_convention sector_digits checked_sector
get_id_sector r =
    if not (is_old_naming_convention r)
    then lift (ok r.geo_info.sector)
    else lift r.sector >>= λ name.
        lift (sector_digits name) >>= λ digits. lift (stoul 10 digits) >>= checked_sector

unfoldable pub checked_layer : ℕ → Action Reports ℕ
unfolding crash_if
checked_layer layer = crash_if (ltb 7 layer) >> lift (ok (layer % 256))

-- Router::getIdLayer
unfoldable pub get_id_layer : Router → Action Reports ℕ
unfolding is_old_naming_convention checked_layer
get_id_layer r =
    if not (is_old_naming_convention r)
    then lift (ok r.geo_info.layer)
    else lift (stoul 10 (drop (length r.sca_address - 1) r.sca_address)) >>= checked_layer

-- Router::getId. C++ leaves open which of the three parts is computed first; with this order the
-- reports, and which of several exceptions ends the call, may differ, but not the ID.
unfoldable pub get_id : Router → Action Reports ℕ
unfolding check_id get_id_sector get_id_layer get_id_endcap
get_id r =
    check_id r
    >> (get_id_sector r >>= λ sector. get_id_layer r >>= λ layer.
        get_id_endcap r >>= λ endcap. lift (ok ((sector * 16 + layer * 2 + endcap) % 256)))
