-- ===== src/Geo/Values.antt =====
-- What getValue of src/SCAGeoIdentifier.cpp gives, and the ranges of the constructor's fields.
use nswconfiguration.Common.{
  ℕ, ◌%◌, ◌==◌, ◌<◌, ◌≡◌, ◌⊎◌, refl, sym, ap, ◌∙◌, arith, ltb, leb, Bool, true, false, not, ◌||◌,
  List, [], ◌∷◌, Option, none, some, get_elem?, if◌then◌else◌, inl, inr, String, str_eq, any,
}
use nswconfiguration.Common.Results.{
  ok, err, ◌>>=◌, >>=-eq-ok, ok-injective, sca_geo_identifier_issue,
}
use nswconfiguration.Text.Numbers.{stoul}
use nswconfiguration.Geo.Names.{has, get_element_type, tokenize_string}
use nswconfiguration.Geo.Identifier.{
  ScaGeoIdentifier, Detector, mm, stgc, no_detector, extract_detector, extract_wheel,
  throw_or_return_not_exist, number_or, checked_value, element_value, value_at, get_value,
  layer_required, is_feb, radius_limit, sca_geo_identifier,
}
use mathlib.Core.Path.{subst}

checked_value-required :
    (max_value v : ℕ)
    → checked_value max_value true v
      ≡ (if ltb 255 v || leb max_value v then err sca_geo_identifier_issue else ok (v % 256))
unfolding checked_value throw_or_return_not_exist
checked_value-required max_value v = ground arith

checked_value-optional : (max_value v : ℕ) → checked_value max_value false v ≡ ok (v % 256)
unfolding checked_value throw_or_return_not_exist
checked_value-optional max_value v = ground arith

-- An element that begins with the prefix, and goes on with the number v. When the value is required,
-- a v that is too large throws; when it is not, the lowest eight bits of v are the value, however
-- large v is.
pub get_value-number :
    (elements : List (List ℕ)) (prefix position max_value : ℕ) (number : List ℕ) (v : ℕ)
    → get_elem? elements position ≡ some (prefix ∷ number)
    → stoul 10 number ≡ ok v
    → (get_value elements false prefix position max_value true
        ≡ (if ltb 255 v || leb max_value v then err sca_geo_identifier_issue else ok (v % 256)))
      × (get_value elements false prefix position max_value false ≡ ok (v % 256))
unfolding get_value element_value number_or
get_value-number elements prefix position max_value number v here parsed = (
  rw (here, equal_self prefix, parsed) (checked_value-required max_value v),
  rw (here, equal_self prefix, parsed) (checked_value-optional max_value v),
)
  where
    equal_self : (a : ℕ) → (a == a) ≡ true
    equal_self a = ground arith

in_range :
    (b c : ℕ) (v : ℕ) (bad : Bool)
    → (ltb 255 b || leb c b) ≡ bad
    → (if bad then err sca_geo_identifier_issue else ok (b % 256)) ≡ ok v
    → v < c
in_range b c v true e h = cc
in_range b c v false e h = ground (arith, ok-injective h)

checked_value-lt : (max_value n v : ℕ) → checked_value max_value true n ≡ ok v → v < max_value
checked_value-lt max_value n v h =
    in_range n max_value v (ltb 255 n || leb max_value n) refl
      (sym (checked_value-required max_value n) ∙ h)

required_element :
    (prefix max_value : ℕ) (o : Option (List ℕ)) (v : ℕ)
    → value_at prefix max_value true o ≡ ok v
    → v < max_value
unfolding throw_or_return_not_exist element_value
required_element prefix max_value none v h = cc
required_element prefix max_value (some []) v h = cc
required_element prefix max_value (some (c ∷ number)) v h = of_test (c == prefix) h
  where
    of_test :
        (same : Bool)
        → (if not same
            then throw_or_return_not_exist true
            else number_or true (stoul 10 number) >>= checked_value max_value true)
          ≡ ok v
        → v < max_value
    of_test false e = cc
    of_test true e =
        let (n, got, checked) =
          >>=-eq-ok (number_or true (stoul 10 number)) (checked_value max_value true) e in
        checked_value-lt max_value n v checked

required-lt :
    (elements : List (List ℕ)) (prefix position max_value : ℕ) (required : Bool) {v : ℕ}
    → required ≡ true
    → get_value elements false prefix position max_value required ≡ ok v
    → v < max_value
unfolding get_value
required-lt elements prefix position max_value false e h = cc
required-lt elements prefix position max_value true e h =
    required_element prefix max_value (get_elem? elements position) _ h

either :
    (elements : List (List ℕ)) (prefix position max_value : ℕ) (required : Bool) (v : ℕ)
    → get_value elements false prefix position max_value required ≡ ok v
    → (required ≡ false) ⊎ (v < max_value)
either elements prefix position max_value false v h = inl refl
either elements prefix position max_value true v h =
    inr (required-lt elements prefix position max_value true refl h)

-- The front-end boards, and the other boards that stand in one layer.
abbrev pub front_ends : List String
front_ends = "PFEB" ∷ "MMFE8" ∷ "SFEB6" ∷ "SFEB8" ∷ "SFEB" ∷ []

abbrev pub layer_boards : List String
layer_boards = "L1DDC" ∷ "ADDC" ∷ "Router" ∷ []

abbrev pub is_one_of : List String → String → Bool
is_one_of types t = any (str_eq t) types

-- A Micromegas board is one of 16 in its layer, another of 3.
abbrev pub RadiusFits : Detector → ℕ → Type 0
RadiusFits detector radius = (radius < 3) ⊎ ((detector ≡ mm) × (radius < 16))

abbrev pub InRange : ScaGeoIdentifier → Type 0
InRange id =
    (id.sector < 16)
    × (((is_one_of front_ends id.resource_type || is_one_of layer_boards id.resource_type) ≡ false)
        ⊎ (id.layer < 8))
    × ((is_one_of front_ends id.resource_type ≡ false) ⊎ RadiusFits id.detector id.radius)

-- The limit that the constructor takes for the radius is the detector's.
radius_limit-RadiusFits : (d : Detector) (r : ℕ) → r < radius_limit d → RadiusFits d r
unfolding radius_limit
radius_limit-RadiusFits mm r h = inr (refl, h)
radius_limit-RadiusFits stgc r h = inl h
radius_limit-RadiusFits no_detector r h = inl h

radius_in_range :
    (t : String) (d : Detector) (r : ℕ)
    → (is_feb t ≡ false) ⊎ (r < radius_limit d)
    → (is_one_of front_ends t ≡ false) ⊎ RadiusFits d r
unfolding is_feb
radius_in_range t d r (inl other) = inl other
radius_in_range t d r (inr h) = inr (radius_limit-RadiusFits d r h)

layer_in_range :
    (t : String) (l : ℕ)
    → (layer_required t ≡ false) ⊎ (l < 8)
    → ((is_one_of front_ends t || is_one_of layer_boards t) ≡ false) ⊎ (l < 8)
unfolding layer_required is_feb
layer_in_range t l h = h

-- The fields of an identifier that is made of an address with a delimiter: the sector is below 16,
-- the layer of a front-end board, an L1DDC, an ADDC and a Router is below 8, and the radius of a
-- front-end board is below 16 for a Micromegas and below 3 else.
pub sca_geo_identifier-ranges :
    (address : List ℕ) (id : ScaGeoIdentifier)
    → sca_geo_identifier address ≡ ok id
    → has address "/" ≡ true
    → InRange id
unfolding sca_geo_identifier
sca_geo_identifier-ranges address id h geo =
    let elements = tokenize_string b'/' address in
    let (detector, h1, e1) =
      >>=-eq-ok (extract_detector address elements (not (has address "/"))) _ h in
    let (wheel, h2, e2) = >>=-eq-ok (extract_wheel elements (not (has address "/"))) _ e1 in
    let (type, h3, e3) = >>=-eq-ok (get_element_type address) _ e2 in
    let (sector, h4, e4) =
      >>=-eq-ok (get_value elements (not (has address "/")) b'S' 4 16 true) _ e3 in
    let (layer, h5, e5) =
      >>=-eq-ok (get_value elements (not (has address "/")) b'L' 5 8 (layer_required type)) _ e4 in
    let (radius, h6, e6) =
      >>=-eq-ok
        (get_value elements (not (has address "/")) b'R' 6 (radius_limit detector) (is_feb type)) _
        e5 in
    subst InRange (ok-injective e6) (
      required-lt elements b'S' 4 16 true refl
          (ap (λ g. get_value elements g b'S' 4 16 true) geo_id ∙ h4),
      layer_in_range type layer (
          either elements b'L' 5 8 (layer_required type) layer
            (ap (λ g. get_value elements g b'L' 5 8 (layer_required type)) geo_id ∙ h5)),
      radius_in_range type detector radius (
          either elements b'R' 6 (radius_limit detector) (is_feb type) radius (
            ap (λ g. get_value elements g b'R' 6 (radius_limit detector) (is_feb type)) geo_id
            ∙ h6)),
    )
  where
    geo_id : false ≡ not (has address "/")
    geo_id = sym (ap not geo)
