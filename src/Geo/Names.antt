-- ===== src/Geo/Names.antt =====
-- nsw::getElementType, nsw::tokenizeString and nsw::contains of src/Utility.cpp.
use nswconfiguration.Common.{
  ℕ, ◌==◌, String, Bool, List, [], ◌∷◌, ◌||◌, ◌&&◌, reverse, if◌then◌else◌,
}
use nswconfiguration.Common.Results.{Result, ok, err, runtime_error}
use nswconfiguration.Text.{codes, is_prefix, occurs}

-- s.find(p) != std::string::npos
abbrev pub has : List ℕ → String → Bool
has s p = occurs (codes p) s

abbrev pub starts_with : List ℕ → String → Bool
starts_with s p = is_prefix (codes p) s

abbrev pub ends_with : List ℕ → String → Bool
ends_with s p = is_prefix (reverse (codes p)) (reverse s)

-- ELEMENT_NAMES of NSWConfiguration/Constants.h
abbrev pub element_names : List String
element_names =
    "MMFE8" ∷ "PFEB" ∷ "SFEB_old" ∷ "SFEB8" ∷ "SFEB6" ∷ "SFEB" ∷ "TPCarrier" ∷ "STGCTP" ∷ "TP"
    ∷ "ADDC" ∷ "PadTrigger" ∷ "Router" ∷ "GBTX" ∷ "RimL1DDC" ∷ "L1DDC" ∷ []

-- The first name that occurs in the element's.
unfoldable pub first_name : List String → List ℕ → Result String
first_name [] element_name = err runtime_error
first_name (name ∷ names) element_name =
    let later = first_name names element_name in if has element_name name then ok name else later

-- The crates of the trigger processors.
unfoldable pub trigger_type : String → List ℕ → Result String → Result String
trigger_type processor element_name otherwise =
    if has element_name "/TrigProc/" && has element_name "/E0"
    then ok processor
    else if has element_name "/TrigProc/" && has element_name "/E1"
    then ok "TPCarrier"
    else otherwise

unfoldable pub stgc_type : List ℕ → Result String
unfolding trigger_type
stgc_type s =
    if starts_with s "sTGC" || starts_with s "STG"
    then (if has s "/Strip/"
        then (if ends_with s "R0" then ok "SFEB8" else ok "SFEB6")
        else if has s "/Pad/"
        then ok "PFEB"
        else trigger_type "STGCTP" s (err runtime_error))
    else err runtime_error

unfoldable pub mm_type : List ℕ → Result String
unfolding trigger_type stgc_type
mm_type s =
    if starts_with s "MM"
    then trigger_type "MMTP" s (if has s "/Strip/" then ok "MMFE8" else stgc_type s)
    else stgc_type s

-- nsw::getElementType
unfoldable pub get_element_type : List ℕ → Result String
unfolding first_name mm_type
get_element_type s =
    if has s "/"
    then (if has s "/PadTrig/"
        then ok "PadTrigger"
        else if has s "/Rim-L1DDC/"
        then ok "RimL1DDC"
        else if has s "/L1DDC/"
        then ok "L1DDC"
        else if has s "/ADDC/"
        then ok "ADDC"
        else if has s "/Router/"
        then ok "Router"
        else mm_type s)
    else first_name element_names s

-- The text before the first delimiter joins the pieces after it.
unfoldable pub push_first : ℕ → List (List ℕ) → List (List ℕ)
push_first c [] = (c ∷ []) ∷ []
push_first c (piece ∷ pieces) = (c ∷ piece) ∷ pieces

-- nsw::tokenizeString, for a delimiter of one character.
unfoldable pub tokenize_string : ℕ → List ℕ → List (List ℕ)
unfolding push_first
tokenize_string delimiter [] = [] ∷ []
tokenize_string delimiter (c ∷ s) =
    let rest = tokenize_string delimiter s in
    if c == delimiter then [] ∷ rest else push_first c rest
