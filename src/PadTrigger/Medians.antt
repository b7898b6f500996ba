-- ===== src/PadTrigger/Medians.antt =====
-- The medians of the delays and the least of them, in getMedianDelay and getTargetBcid of
-- src/hw/PadTrigger.cpp.
use nswconfiguration.Common.{
  ℕ, zero, suc, ◌+◌, ◌/◌, ◌≤◌, ◌<◌, ◌≡◌, refl, sym, ap, ◌∙◌, arith, tests, ltb, Bool, true, List,
  [], ◌∷◌, length, get_elem?, All, some, ◌⊎◌, inl, inr, if◌then◌else◌, Bool-cases,
}
use nswconfiguration.Common.Results.{ok, at}
use mathlib.Core.Option.{some-injective}
use nswconfiguration.PadTrigger.Deskew.{
  select, found, is_empty, insert_sorted, sort, median, all_delays_of, get_median_delay,
  median_delays, min_index, min_element,
}

pub select-found :
    (p : ℕ → Bool) (first n b : ℕ)
    → found b (select p first n) ≡ true
    → (first ≤ b) × (b < first + n) × (p b ≡ true)
unfolding select
select-found p first zero b h = cc
select-found p first (suc n) b h = ground (arith, select-found p (first + 1) n b)

-- An index in a list has an element.
pub get_elem?-some : (xs : List ℕ) (i : ℕ) → i < length xs → (x : ℕ) × (get_elem? xs i ≡ some x)
get_elem?-some [] i h = absurd (omega arith)
get_elem?-some (x ∷ xs) zero h = (x, refl)
get_elem?-some (x ∷ xs) (suc i) h = get_elem?-some xs i (omega arith)

pub get_elem?-lt : (xs : List ℕ) (i x : ℕ) → get_elem? xs i ≡ some x → i < length xs
get_elem?-lt [] i x h = cc
get_elem?-lt (y ∷ xs) zero x h = omega arith
get_elem?-lt (y ∷ xs) (suc i) x h = omega (arith, get_elem?-lt xs i x h)

pub get_elem?-found : (xs : List ℕ) (i x : ℕ) → get_elem? xs i ≡ some x → found x xs ≡ true
get_elem?-found [] i x h = cc
get_elem?-found (y ∷ xs) zero x h = ground (arith, some-injective y x h)
get_elem?-found (y ∷ xs) (suc i) x h = ground (arith, get_elem?-found xs i x h)

length-insert_sorted : (v : ℕ) (xs : List ℕ) → length (insert_sorted v xs) ≡ suc (length xs)
unfolding insert_sorted
length-insert_sorted v [] = refl
length-insert_sorted v (x ∷ xs) = ground (arith, length-insert_sorted v xs)

length-sort : (xs : List ℕ) → length (sort xs) ≡ length xs
unfolding sort
length-sort [] = refl
length-sort (x ∷ xs) = length-insert_sorted x (sort xs) ∙ ap suc (length-sort xs)

-- The median of some numbers is there.
pub median-ok : (x : ℕ) (xs : List ℕ) → (m : ℕ) × (median (x ∷ xs) ≡ ok m)
unfolding median
median-ok x xs =
    let (m, here) =
      get_elem?-some (sort (x ∷ xs)) (suc (length xs) / 2) (omega (arith, length-sort (x ∷ xs))) in
    (m, ap at here)

pub get_median_delay-ok :
    (bcid : ℕ) (boards : List (List ℕ)) → (m : ℕ) × (get_median_delay bcid boards ≡ ok m)
unfolding get_median_delay
get_median_delay-ok bcid boards = of_delays (all_delays_of bcid boards)
  where
    of_delays :
        (delays : List ℕ) → (m : ℕ) × ((if is_empty delays then ok 0 else median delays) ≡ ok m)
    of_delays [] = (0, refl)
    of_delays (x ∷ xs) = median-ok x xs

-- The least element of a list, with its index.
min_index_least :
    (best least i : ℕ) (xs : List ℕ)
    → ((min_index best least i xs ≡ best) × All (λ x. least ≤ x) xs)
      ⊎ ((k v : ℕ) × (min_index best least i xs ≡ i + k)
          × (get_elem? xs k ≡ some v)
          × (v < least)
          × All (λ x. v ≤ x) xs)
unfolding min_index
min_index_least best least i [] = inl (refl, tt)
min_index_least best least i (x ∷ xs) = elim (Bool-cases (ltb x least)) [
  | inl less ↦ elim (min_index_least i x (i + 1) xs) [
    | inl (same, least_of) ↦ inr (
      0,
      x,
      ap (λ (t : Bool). if t then min_index i x (i + 1) xs else min_index best least (i + 1) xs)
            less
          ∙ same
          ∙ omega arith,
      refl,
      omega (tests, less),
      (omega arith, least_of),
    )
    | inr (k, v, index, here, lower, least_of) ↦ inr (
      suc k,
      v,
      ap (λ (t : Bool). if t then min_index i x (i + 1) xs else min_index best least (i + 1) xs)
            less
          ∙ index
          ∙ omega arith,
      here,
      omega (tests, less),
      (omega arith, least_of),
    )
  ]
  | inr not_less ↦ elim (min_index_least best least (i + 1) xs) [
    | inl (same, least_of) ↦ inl (
      ap (λ (t : Bool). if t then min_index i x (i + 1) xs else min_index best least (i + 1) xs)
            not_less
          ∙ same,
      (ground arith, least_of),
    )
    | inr (k, v, index, here, lower, least_of) ↦ inr (
      suc k,
      v,
      ap (λ (t : Bool). if t then min_index i x (i + 1) xs else min_index best least (i + 1) xs)
            not_less
          ∙ index
          ∙ omega arith,
      here,
      lower,
      (ground arith, least_of),
    )
  ]
]

-- An entry of the medians is the median delay of the BCID at its index.
pub median_delays-ok :
    (bcids : List ℕ) (boards : List (List ℕ))
    → (delays : List ℕ) × (median_delays bcids boards ≡ ok delays)
      × (length delays ≡ length bcids)
      × ((i b : ℕ)
          → get_elem? bcids i ≡ some b
          → (m : ℕ) × (get_elem? delays i ≡ some m) × (get_median_delay b boards ≡ ok m))
unfolding median_delays
median_delays-ok [] boards = ([], refl, refl, λ i b h. cc)
median_delays-ok (bcid ∷ bcids) boards =
    let (m, one) = get_median_delay-ok bcid boards in
    let (delays, rest, same, entries) = median_delays-ok bcids boards in
    (m ∷ delays, rw (one, rest) refl, ap suc same, entry m one delays entries)
  where
    entry :
        (m : ℕ)
        → get_median_delay bcid boards ≡ ok m
        → (delays : List ℕ)
        → ((i b : ℕ)
            → get_elem? bcids i ≡ some b
            → (k : ℕ) × (get_elem? delays i ≡ some k) × (get_median_delay b boards ≡ ok k))
        → (i b : ℕ) → get_elem? (bcid ∷ bcids) i ≡ some b
        → (k : ℕ) × (get_elem? (m ∷ delays) i ≡ some k) × (get_median_delay b boards ≡ ok k)
    entry m one delays entries zero b h =
        (m, refl, ap (λ t. get_median_delay t boards) (sym (some-injective bcid b h)) ∙ one)
    entry m one delays entries (suc i) b h = entries i b h

pub min_element-least :
    (xs : List ℕ)
    → 0 < length xs
    → (v : ℕ) × (get_elem? xs (min_element xs) ≡ some v) × All (λ x. v ≤ x) xs
unfolding min_element
min_element-least [] h = absurd (omega arith)
min_element-least (x ∷ xs) h = elim (min_index_least 0 x 1 xs) [
  | inl (same, least_of) ↦ (x, ap (get_elem? (x ∷ xs)) same, (omega arith, least_of))
  | inr (k, v, index, here, lower, least_of) ↦
      (v, ap (get_elem? (x ∷ xs)) (index ∙ omega_suc k) ∙ here, (omega arith, least_of))
]
  where
    omega_suc : (k : ℕ) → 1 + k ≡ suc k
    omega_suc k = omega arith
