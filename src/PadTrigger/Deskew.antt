-- ===== src/PadTrigger/Deskew.antt =====
-- How src/hw/PadTrigger.cpp chooses the input delays from the BCID that each front-end board shows
-- at each delay, with the constants of NSWConfiguration/Constants.h.
use nswconfiguration.Common.{
  ℕ, zero, suc, ◌+◌, ◌-◌, ◌%◌, ◌^◌, ◌/◌, ◌==◌, ltb, leb, Bool, true, false, not, ◌&&◌, ◌||◌, List,
  [], ◌∷◌, ◌++◌, map, reverse, length, get_elem?, all, any, if◌then◌else◌,
}
use nswconfiguration.Common.Results.{Result, ok, ◌>>=◌, at}

abbrev pub num_input_delays_per_bc : ℕ
num_input_delays_per_bc = 6

abbrev pub num_input_delays_margin : ℕ
num_input_delays_margin = 2

abbrev pub pfeb_bcid_range : ℕ
pfeb_bcid_range = 16

abbrev pub no_target : ℕ
no_target = 0xffffffff

-- PadTrigger::rotatePFEBBCIDs
unfoldable pub rotate_pfeb_bcids : List ℕ → List ℕ
rotate_pfeb_bcids bcids =
    map (λ bcid. if ltb bcid (pfeb_bcid_range / 2) then bcid + pfeb_bcid_range else bcid) bcids

-- std::is_sorted
unfoldable pub is_sorted : List ℕ → Bool
is_sorted [] = true
is_sorted (x ∷ []) = true
is_sorted (x ∷ (y ∷ xs)) = leb x y && is_sorted (y ∷ xs)

-- PadTrigger::checkPFEBBCIDs
unfoldable pub check_pfeb_bcids : List ℕ → Bool
unfolding rotate_pfeb_bcids is_sorted
check_pfeb_bcids [] = false
check_pfeb_bcids (front ∷ rest) =
    any (λ bcid. not (bcid == front)) (front ∷ rest)
    && (is_sorted (reverse (front ∷ rest))
        || is_sorted (reverse (rotate_pfeb_bcids (front ∷ rest))))

-- std::count
unfoldable pub count : ℕ → List ℕ → ℕ
count v [] = 0
count v (x ∷ xs) = (if x == v then 1 else 0) + count v xs

-- std::find(...) != end()
abbrev pub found : ℕ → List ℕ → Bool
found v xs = any (λ x. x == v) xs

-- The numbers from `first` on that pass the test, as the loops over the BCIDs push them.
unfoldable pub select : (ℕ → Bool) → ℕ → ℕ → List ℕ
select p first zero = []
select p first (suc n) = let rest = select p (first + 1) n in if p first then first ∷ rest else rest

-- PadTrigger::getViableBcids of one board
unfoldable pub viable_of_board : List ℕ → List ℕ
viable_of_board bcid_per_delay =
    if not (check_pfeb_bcids bcid_per_delay)
    then []
    else select
        (λ bcid.
          leb (num_input_delays_per_bc - num_input_delays_margin) (count bcid bcid_per_delay))
        0 pfeb_bcid_range

abbrev pub is_empty : List ℕ → Bool
is_empty [] = true
is_empty (x ∷ xs) = false

-- PadTrigger::getViableBcids of all boards
unfoldable pub get_viable_bcids : List (List ℕ) → List ℕ
get_viable_bcids boards =
    let viable_per_pfeb = map viable_of_board boards in
    if all is_empty viable_per_pfeb
    then []
    else select (λ bcid. all (λ viable. is_empty viable || found bcid viable) viable_per_pfeb) 0
        pfeb_bcid_range

-- The list in order, for std::nth_element.
unfoldable pub insert_sorted : ℕ → List ℕ → List ℕ
insert_sorted v [] = v ∷ []
insert_sorted v (x ∷ xs) = let rest = insert_sorted v xs in if leb v x then v ∷ x ∷ xs else x ∷ rest

unfoldable pub sort : List ℕ → List ℕ
unfolding insert_sorted
sort [] = []
sort (x ∷ xs) = insert_sorted x (sort xs)

-- std::nth_element at size() / 2, and v.at of that place.
unfoldable pub median : List ℕ → Result ℕ
unfolding sort
median v = at (get_elem? (sort v) (length v / 2))

-- The delays at which a board shows the BCID, from the delay `delay` on.
unfoldable pub delays_of : ℕ → ℕ → List ℕ → List ℕ
delays_of bcid delay [] = []
delays_of bcid delay (x ∷ xs) =
    let rest = delays_of bcid (delay + 1) xs in if x == bcid then delay ∷ rest else rest

-- The delays of the boards that pass the check.
unfoldable pub all_delays_of : ℕ → List (List ℕ) → List ℕ
unfolding check_pfeb_bcids delays_of
all_delays_of bcid [] = []
all_delays_of bcid (board ∷ boards) =
    (if not (check_pfeb_bcids board) then [] else delays_of bcid 0 board)
    ++ all_delays_of bcid boards

-- PadTrigger::getMedianDelay
unfoldable pub get_median_delay : ℕ → List (List ℕ) → Result ℕ
unfolding all_delays_of median
get_median_delay bcid boards =
    let delays = all_delays_of bcid boards in if is_empty delays then ok 0 else median delays

unfoldable pub median_delays : List ℕ → List (List ℕ) → Result (List ℕ)
unfolding get_median_delay
median_delays [] boards = ok []
median_delays (bcid ∷ bcids) boards = do
  delay ← get_median_delay bcid boards
  delays ← median_delays bcids boards
  ok (delay ∷ delays)

-- std::distance(begin, std::min_element(begin, end)): the first of the least, with the index and
-- the value of the least so far.
unfoldable pub min_index : ℕ → ℕ → ℕ → List ℕ → ℕ
min_index best least i [] = best
min_index best least i (x ∷ xs) =
    if ltb x least then min_index i x (i + 1) xs else min_index best least (i + 1) xs

unfoldable pub min_element : List ℕ → ℕ
unfolding min_index
min_element [] = 0
min_element (x ∷ xs) = min_index 0 x 1 xs

-- PadTrigger::getTargetBcid
unfoldable pub get_target_bcid : List (List ℕ) → Result ℕ
get_target_bcid boards =
    let viable_bcids = get_viable_bcids boards in
    if ltb (length viable_bcids) 1 || ltb 3 (length viable_bcids) then ok no_target else do
      delays ← median_delays viable_bcids boards
      at (get_elem? viable_bcids (min_element delays))

-- The loop of getTargetDelay.
unfoldable pub target_loop : ℕ → ℕ → ℕ → List ℕ → ℕ
target_loop target pos delay [] = 0
target_loop target pos delay (x ∷ xs) =
    let rest =
      target_loop target (if x == target then (pos + 1) % 2 ^ 64 else pos) (delay + 1) xs in
    if pos == num_input_delays_per_bc / 2 then delay else rest

-- The start position: the difference is a std::size_t, which wraps around.
unfoldable pub start_position : ℕ → List ℕ → ℕ
unfolding count
start_position target [] = 0
start_position target (front ∷ rest) =
    if front == target
    then (2 ^ 64 + num_input_delays_per_bc - count target (front ∷ rest)) % 2 ^ 64
    else 0

-- PadTrigger::getTargetDelay
unfoldable pub get_target_delay : ℕ → List ℕ → ℕ
get_target_delay target bcid_per_delay =
    if not (check_pfeb_bcids bcid_per_delay)
    then 0
    else target_loop target (start_position target bcid_per_delay) 0 bcid_per_delay

-- PadTrigger::getTargetDelays
unfoldable pub get_target_delays : ℕ → List (List ℕ) → List ℕ
get_target_delays target boards = map (get_target_delay target) boards
