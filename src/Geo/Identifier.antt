-- ===== src/Geo/Identifier.antt =====
-- nsw::SCAGeoIdentifier of src/SCAGeoIdentifier.cpp.
use nswconfiguration.Common.{
  ℕ, ◌%◌, ◌==◌, ltb, leb, String, str_eq, Bool, true, not, any, ◌||◌, List, [], ◌∷◌, get_elem?,
  Option, none, some, if◌then◌else◌,
}
use nswconfiguration.Common.Results.{
  Result, ok, err, ◌>>=◌, invalid_argument, sca_geo_identifier_issue,
}
use nswconfiguration.Text.Numbers.{stoul}
use nswconfiguration.Geo.Names.{has, get_element_type, tokenize_string}

-- nsw::geoid of NSWConfiguration/Constants.h
pub data Detector : Type 0 where
  mm stgc no_detector : Detector

pub data Wheel : Type 0 where
  wheel_a wheel_c no_wheel : Wheel

abbrev pub does_not_exist : ℕ
does_not_exist = 0xff

abbrev pub num_sectors : ℕ
num_sectors = 16

abbrev pub num_layers_per_tech : ℕ
num_layers_per_tech = 8

abbrev pub num_radii_mm : ℕ
num_radii_mm = 16

abbrev pub num_radii_stgc : ℕ
num_radii_stgc = 3

pub record ScaGeoIdentifier : Type 0 where
  pub sca_address : List ℕ
  pub elements : List (List ℕ)
  pub no_geo_id : Bool
  pub detector : Detector
  pub wheel : Wheel
  pub resource_type : String
  pub sector : ℕ
  pub layer : ℕ
  pub radius : ℕ

-- SCAGeoIdentifier::extractDetector
unfoldable pub extract_detector : List ℕ → List (List ℕ) → Bool → Result Detector
extract_detector [] elements no_geo_id = err sca_geo_identifier_issue
extract_detector address [] no_geo_id = err sca_geo_identifier_issue
extract_detector address (element ∷ elements) no_geo_id =
    if no_geo_id
    then ok no_detector
    else if has element "MM-"
    then ok mm
    else if has element "sTGC-" || has element "STG-"
    then ok stgc
    else err sca_geo_identifier_issue

-- SCAGeoIdentifier::extractWheel
unfoldable pub extract_wheel : List (List ℕ) → Bool → Result Wheel
extract_wheel [] no_geo_id = err sca_geo_identifier_issue
extract_wheel (element ∷ elements) no_geo_id =
    if no_geo_id
    then ok no_wheel
    else if has element "-A"
    then ok wheel_a
    else if has element "-C"
    then ok wheel_c
    else err sca_geo_identifier_issue

-- The lambda throwOrReturnNotExist.
unfoldable pub throw_or_return_not_exist : Bool → Result ℕ
throw_or_return_not_exist required =
    if required then err sca_geo_identifier_issue else ok does_not_exist

-- std::stoul with the handler of getValue: an exception of another kind goes through.
unfoldable pub number_or : Bool → Result ℕ → Result ℕ
unfolding throw_or_return_not_exist
number_or required (err invalid_argument) = throw_or_return_not_exist required
number_or required (err other) = err other
number_or required (ok v) = ok v

-- The two tests of getValue for a number that is too large. What the lambda returns is dropped.
unfoldable pub checked_value : ℕ → Bool → ℕ → Result ℕ
unfolding throw_or_return_not_exist
checked_value max_value required v = do
  dropped ← if ltb 255 v then throw_or_return_not_exist required else ok 0
  dropped' ← if leb max_value v then throw_or_return_not_exist required else ok 0
  ok (v % 256)

-- An element of the address: it begins with the prefix, and a number follows.
unfoldable pub element_value : ℕ → ℕ → Bool → List ℕ → Result ℕ
unfolding throw_or_return_not_exist number_or checked_value
element_value prefix max_value required [] = throw_or_return_not_exist required
element_value prefix max_value required (c ∷ number) =
    if not (c == prefix)
    then throw_or_return_not_exist required
    else number_or required (stoul 10 number) >>= checked_value max_value required

abbrev pub value_at : ℕ → ℕ → Bool → Option (List ℕ) → Result ℕ
value_at prefix max_value required none = throw_or_return_not_exist required
value_at prefix max_value required (some element) = element_value prefix max_value required element

-- SCAGeoIdentifier::getValue
unfoldable pub get_value : List (List ℕ) → Bool → ℕ → ℕ → ℕ → Bool → Result ℕ
unfolding element_value throw_or_return_not_exist
get_value elements no_geo_id prefix position max_value required =
    if no_geo_id
    then ok does_not_exist
    else value_at prefix max_value required (get_elem? elements position)

-- SCAGeoIdentifier::isFeb
unfoldable pub is_feb : String → Bool
is_feb t = any (str_eq t) ("PFEB" ∷ "MMFE8" ∷ "SFEB6" ∷ "SFEB8" ∷ "SFEB" ∷ [])

-- SCAGeoIdentifier::layerRequired
unfoldable pub layer_required : String → Bool
unfolding is_feb
layer_required t = is_feb t || any (str_eq t) ("L1DDC" ∷ "ADDC" ∷ "Router" ∷ [])

unfoldable pub radius_limit : Detector → ℕ
radius_limit mm = num_radii_mm
radius_limit stgc = num_radii_stgc
radius_limit no_detector = num_radii_stgc

-- SCAGeoIdentifier::SCAGeoIdentifier
unfoldable pub sca_geo_identifier : List ℕ → Result ScaGeoIdentifier
sca_geo_identifier address = do
  let elements = tokenize_string b'/' address
  let no_geo_id = not (has address "/")
  detector ← extract_detector address elements no_geo_id
  wheel ← extract_wheel elements no_geo_id
  resource_type ← get_element_type address
  sector ← get_value elements no_geo_id b'S' 4 num_sectors true
  layer ← get_value elements no_geo_id b'L' 5 num_layers_per_tech (layer_required resource_type)
  radius ← get_value elements no_geo_id b'R' 6 (radius_limit detector) (is_feb resource_type)
  ok (record {
    sca_address = address;
    elements = elements;
    no_geo_id = no_geo_id;
    detector = detector;
    wheel = wheel;
    resource_type = resource_type;
    sector = sector;
    layer = layer;
    radius = radius;
  })
