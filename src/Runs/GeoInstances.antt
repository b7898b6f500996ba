-- ===== src/Runs/GeoInstances.antt =====
-- The theorems on src/SCAGeoIdentifier.cpp at the address of a front-end board.
use nswconfiguration.Common.{
  ℕ, ◌%◌, ◌≡◌, ◌||◌, refl, ltb, leb, true, false, List, [], ◌∷◌, if◌then◌else◌,
}
use nswconfiguration.Common.Results.{ok, err, sca_geo_identifier_issue}
use nswconfiguration.Text.{codes}
use nswconfiguration.Text.Numbers.{stoul}
use nswconfiguration.Geo.Names.{get_element_type, tokenize_string}
use nswconfiguration.Geo.Identifier.{
  ScaGeoIdentifier, sca_geo_identifier, extract_detector, extract_wheel, get_value, layer_required,
  is_feb, radius_limit, stgc, wheel_a,
}
use nswconfiguration.Geo.Values.{InRange, get_value-number, sca_geo_identifier-ranges}

abbrev address : List ℕ
address = codes "sTGC-A/V0/SCA/Strip/S9/L7/R0"

abbrev identifier : ScaGeoIdentifier
identifier = record {
  sca_address = address;
  elements = tokenize_string b'/' address;
  no_geo_id = false;
  detector = stgc;
  wheel = wheel_a;
  resource_type = "SFEB8";
  sector = 9;
  layer = 7;
  radius = 0;
}

made : sca_geo_identifier address ≡ ok identifier
unfolding sca_geo_identifier extract_detector extract_wheel get_element_type get_value
    layer_required is_feb radius_limit tokenize_string stoul
made = refl

sca_geo_identifier-ranges_example : InRange identifier
sca_geo_identifier-ranges_example = sca_geo_identifier-ranges address identifier made refl

-- The layer 12 of a device that needs none.
twelve : stoul 10 (codes "12") ≡ ok 12
unfolding stoul
twelve = refl

get_value-number_example :
    (get_value (codes "L12" ∷ []) false b'L' 0 8 true
      ≡ (if ltb 255 12 || leb 8 12 then err sca_geo_identifier_issue else ok (12 % 256)))
    × (get_value (codes "L12" ∷ []) false b'L' 0 8 false ≡ ok (12 % 256))
get_value-number_example = get_value-number (codes "L12" ∷ []) b'L' 0 8 (codes "12") 12 refl twelve
