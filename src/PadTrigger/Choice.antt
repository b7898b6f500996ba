-- ===== src/PadTrigger/Choice.antt =====
-- The target BCID that getTargetBcid of src/hw/PadTrigger.cpp chooses.
use nswconfiguration.Common.{
  ℕ, suc, ◌==◌, ◌≤◌, ◌<◌, ◌≡◌, refl, sym, ap, ◌∙◌, arith, ltb, leb, Bool, true, false, not, leb→le,
  ◌||◌, List, [], ◌∷◌, map, length, get_elem?, all, All, All-get, some, ◌⊎◌, inl, inr,
  if◌then◌else◌, Bool-cases, ==_iff,
}
use nswconfiguration.Common.Results.{ok, at, ok-injective}
use mathlib.Core.Path.{subst}
use nswconfiguration.PadTrigger.Deskew.{
  found, is_empty, count, viable_of_board, get_viable_bcids, get_median_delay, min_element,
  get_target_bcid, check_pfeb_bcids, no_target,
}
use nswconfiguration.PadTrigger.Medians.{
  select-found, get_elem?-some, get_elem?-lt, get_elem?-found, median_delays-ok, min_element-least,
}

found_otherwise :
    (c : Bool) (xs : List ℕ) (b : ℕ) → found b (if c then [] else xs) ≡ true → found b xs ≡ true
found_otherwise true xs b h = cc
found_otherwise false xs b h = h

-- A viable BCID of a board stands at four delays at least.
viable_count : (board : List ℕ) (b : ℕ) → found b (viable_of_board board) ≡ true → 4 ≤ count b board
unfolding viable_of_board
viable_count board b h =
    let (low, high, many) =
      select-found (λ bcid. leb 4 (count bcid board)) 0 16 b
        (found_otherwise (not (check_pfeb_bcids board)) _ b h) in
    leb→le 4 (count b board) many

empty_or_many :
    (board viable : List ℕ) (b : ℕ)
    → viable ≡ viable_of_board board
    → (is_empty viable || found b viable) ≡ true
    → (viable_of_board board ≡ []) ⊎ (4 ≤ count b board)
empty_or_many board [] b same h = inl (sym same)
empty_or_many board (x ∷ xs) b same h =
    inr (viable_count board b (subst (λ t. found b t ≡ true) same h))

-- No board is against the BCID.
abbrev pub Fits : ℕ → List ℕ → Type 0
Fits b board = (viable_of_board board ≡ []) ⊎ (4 ≤ count b board)

all_boards :
    (boards : List (List ℕ)) (b : ℕ)
    → all (λ viable. is_empty viable || found b viable) (map viable_of_board boards) ≡ true
    → All (Fits b) boards
all_boards [] b h = tt
all_boards (board ∷ boards) b h = (
  empty_or_many board (viable_of_board board) b refl (ground arith),
  all_boards boards b (ground arith),
)

get_viable_bcids-Fits :
    (boards : List (List ℕ)) (b : ℕ)
    → found b (get_viable_bcids boards) ≡ true
    → (b < 16) × All (Fits b) boards
unfolding get_viable_bcids
get_viable_bcids-Fits boards b h =
    let (low, high, fits) =
      select-found
        (λ bcid. all (λ viable. is_empty viable || found bcid viable) (map viable_of_board boards))
        0 16 b (found_otherwise (all is_empty (map viable_of_board boards)) _ b h) in
    (high, all_boards boards b fits)

-- An element of a list has an index.
found-get_elem? : (xs : List ℕ) (x : ℕ) → found x xs ≡ true → (i : ℕ) × (get_elem? xs i ≡ some x)
found-get_elem? [] x h = cc
found-get_elem? (y ∷ xs) x h = elim (Bool-cases (y == x)) [
  | inl same ↦ (0, ap some ((==_iff y x).0 same))
  | inr other ↦ let (i, here) = found-get_elem? xs x (ground arith) in (suc i, here)
]

in_range : (n : ℕ) → 0 < n → n ≤ 3 → (ltb n 1 || ltb 3 n) ≡ false
in_range n h k = ground arith

-- When one to three BCIDs are viable, getTargetBcid gives one of them: it is below 16, each board
-- has no viable BCID or shows it at four delays at least, and no viable one has a smaller median
-- delay.
pub get_target_bcid-Fits :
    (boards : List (List ℕ))
    → 0 < length (get_viable_bcids boards)
    → length (get_viable_bcids boards) ≤ 3
    → (t m : ℕ) × (get_target_bcid boards ≡ ok t)
      × (t < 16)
      × All (Fits t) boards
      × (get_median_delay t boards ≡ ok m)
      × ((b k : ℕ)
          → found b (get_viable_bcids boards) ≡ true
          → get_median_delay b boards ≡ ok k
          → m ≤ k)
unfolding get_target_bcid
get_target_bcid-Fits boards some_viable few =
    let vs = get_viable_bcids boards in
    let (delays, run, same, entries) = median_delays-ok vs boards in
    let (v, here, least) = min_element-least delays (omega (arith, same)) in
    let (t, chosen) =
      get_elem?-some vs (min_element delays)
        (omega (arith, get_elem?-lt delays (min_element delays) v here, same)) in
    let (m, entry, median_of) = entries (min_element delays) t chosen in
    let v_m = ok-injective (ap at (sym here ∙ entry)) in
    let (low, fits) =
      get_viable_bcids-Fits boards t (get_elem?-found vs (min_element delays) t chosen) in
    (
      t,
      v,
      rw (in_range (length vs) some_viable few, run) (ap at chosen),
      low,
      fits,
      median_of ∙ ap ok (sym v_m),
      λ b k viable delay.
          let (i, at_i) = found-get_elem? vs b viable in
          let (m', entry', median_b) = entries i b at_i in
          let same_k = ok-injective (sym median_b ∙ delay) in
          omega (arith, All-get (λ x. v ≤ x) delays i least entry', same_k),
    )

-- getTargetBcid does not throw: the index of the least median is one of the viable BCIDs.
pub get_target_bcid-ok : (boards : List (List ℕ)) → (t : ℕ) × (get_target_bcid boards ≡ ok t)
get_target_bcid-ok boards = elim (Bool-cases (strange (length (get_viable_bcids boards)))) [
  | inl strange_number ↦ (no_target, unfold get_target_bcid in (rw strange_number refl))
  | inr some_viable ↦
      let (low, high) = usual (length (get_viable_bcids boards)) some_viable in
      let (t, m, run, a, b, c, e) = get_target_bcid-Fits boards low high in (t, run)
]
  where
    strange : ℕ → Bool
    strange n = ltb n 1 || ltb 3 n

    usual : (n : ℕ) → (ltb n 1 || ltb 3 n) ≡ false → (0 < n) × (n ≤ 3)
    usual n h = ground arith
