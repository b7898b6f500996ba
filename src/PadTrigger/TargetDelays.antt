-- ===== src/PadTrigger/TargetDelays.antt =====
-- The delays that getTargetDelays of src/hw/PadTrigger.cpp chooses for a target BCID.
use nswconfiguration.Common.{
  ℕ, suc, ◌+◌, ◌-◌, ◌%◌, ◌^◌, ◌==◌, ◌≤◌, ◌<◌, ◌≡◌, ◌≢◌, refl, ap, ◌∙◌, arith, Bool, true, false,
  not, List, [], ◌∷◌, length, take, replicate, All, All-map, ◌⊎◌, inl, inr, if◌then◌else◌,
  Bool-cases, ==_iff,
}
use nswconfiguration.PadTrigger.NibbleWords.{IsNibble}
use nswconfiguration.PadTrigger.Deskew.{
  count, check_pfeb_bcids, target_loop, start_position, get_target_delay, get_target_delays,
  no_target,
}
use mathlib.Core.Path.{ap₂}

abbrev pub next : ℕ → ℕ → Bool → ℕ
next target pos hit = if hit then (pos + 1) % 2 ^ 64 else pos

pub loop_head :
    (target pos delay x : ℕ) (xs : List ℕ) (centre hit : Bool)
    → (pos == 3) ≡ centre
    → (x == target) ≡ hit
    → target_loop target pos delay (x ∷ xs)
      ≡ (if centre then delay else target_loop target (next target pos hit) (delay + 1) xs)
unfolding target_loop
loop_head target pos delay x xs centre hit e h =
    ap₂ (λ (c b : Bool). if c then delay else target_loop target (next target pos b) (delay + 1) xs)
      e h

count_head :
    (target x : ℕ) (xs : List ℕ) (hit : Bool)
    → (x == target) ≡ hit
    → count target (x ∷ xs) ≡ (if hit then 1 else 0) + count target xs
unfolding count
count_head target x xs hit h = ap (λ (b : Bool). (if b then 1 else 0) + count target xs) h

target_loop_centre :
    (target pos delay : ℕ) (xs : List ℕ)
    → pos < 2 ^ 64
    → (target_loop target pos delay xs ≡ 0)
      ⊎ ((k : ℕ) × (target_loop target pos delay xs ≡ delay + k)
          × (k < length xs)
          × ((pos + count target (take k xs)) % 2 ^ 64 ≡ 3))
target_loop_centre target pos delay [] h = unfold target_loop in (inl refl)
target_loop_centre target pos delay (x ∷ xs) h = elim (Bool-cases (pos == 3)) [
  | inl here ↦ inr (
    0,
    loop_head target pos delay x xs true (x == target) here refl ∙ omega arith,
    omega arith,
    unfold count in (omega (arith, (==_iff pos 3).0 here)),
  )
  | inr later ↦ elim (Bool-cases (x == target)) [
    | inl hit ↦ elim (target_loop_centre target ((pos + 1) % 2 ^ 64) (delay + 1) xs (omega arith)) [
      | inl no_delay ↦ inl (loop_head target pos delay x xs false true later hit ∙ no_delay)
      | inr (k, result, inside, centre) ↦ inr (
        suc k,
        loop_head target pos delay x xs false true later hit ∙ result ∙ omega arith,
        omega arith,
        omega (arith, count_head target x (take k xs) true hit, centre),
      )
    ]
    | inr miss ↦ elim (target_loop_centre target pos (delay + 1) xs h) [
      | inl no_delay ↦ inl (loop_head target pos delay x xs false false later miss ∙ no_delay)
      | inr (k, result, inside, centre) ↦ inr (
        suc k,
        loop_head target pos delay x xs false false later miss ∙ result ∙ omega arith,
        omega arith,
        omega (arith, count_head target x (take k xs) false miss, centre),
      )
    ]
  ]
]

start_position-lt : (target : ℕ) (row : List ℕ) → start_position target row < 2 ^ 64
unfolding start_position
start_position-lt target [] = omega arith
start_position-lt target (front ∷ rest) = of_test (front == target)
  where
    of_test :
        (b : Bool) → (if b then (2 ^ 64 + 6 - count target (front ∷ rest)) % 2 ^ 64 else 0) < 2 ^ 64
    of_test true = omega arith
    of_test false = omega arith

-- The delay that is chosen is one that the board was read at, with the position 3, or 0.
get_target_delay_position :
    (target : ℕ) (row : List ℕ)
    → (get_target_delay target row ≡ 0)
      ⊎ ((get_target_delay target row < length row)
          × ((start_position target row + count target (take (get_target_delay target row) row))
                % 2 ^ 64
              ≡ 3))
unfolding get_target_delay
get_target_delay_position target row = elim (Bool-cases (check_pfeb_bcids row)) [
  | inr bad ↦ inl (ap (λ (b : Bool). if not b then 0 else loop) bad)
  | inl good ↦
      elim (target_loop_centre target (start_position target row) 0 row
        (start_position-lt target row)) [
          | inl no_delay ↦ inl (ap (λ (b : Bool). if not b then 0 else loop) good ∙ no_delay)
          | inr (k, result, inside, centre) ↦
              let same =
                ap (λ (b : Bool). if not b then 0 else loop) good ∙ result ∙ omega_zero k in
              inr (
                omega (arith, same),
                ap (λ (t : ℕ). (start_position target row + count target (take t row)) % 2 ^ 64)
                      same
                    ∙ centre,
              )
        ]
]
  where
    loop : ℕ
    loop = target_loop target (start_position target row) 0 row

    omega_zero : (k : ℕ) → 0 + k ≡ k
    omega_zero k = omega arith

get_target_delay-IsNibble :
    (target : ℕ) (row : List ℕ) → length row ≤ 16 → IsNibble (get_target_delay target row)
get_target_delay-IsNibble target row h = elim (get_target_delay_position target row) [
  | inl no_delay ↦ omega (arith, no_delay)
  | inr (inside, centre) ↦ omega (arith, inside)
]

abbrev pub IsScan : List (List ℕ) → Type 0
IsScan boards = (length boards ≡ 24) × All (λ row. length row ≤ 16) boards

length-get_target_delays :
    (target : ℕ) (boards : List (List ℕ)) → length (get_target_delays target boards) ≡ length boards
unfolding get_target_delays
length-get_target_delays target [] = refl
length-get_target_delays target (row ∷ boards) = ap suc (length-get_target_delays target boards)

get_target_delays-IsNibble :
    (target : ℕ) (boards : List (List ℕ))
    → All (λ row. length row ≤ 16) boards
    → All IsNibble (get_target_delays target boards)
unfolding get_target_delays
get_target_delays-IsNibble target [] h = tt
get_target_delays-IsNibble target (row ∷ boards) (h, hs) =
    (get_target_delay-IsNibble target row h, get_target_delays-IsNibble target boards hs)

-- A BCID that a board never shows gives no delay.
target_loop_absent :
    (target delay : ℕ) (row : List ℕ)
    → All (λ x. x ≢ target) row
    → target_loop target 0 delay row ≡ 0
target_loop_absent target delay [] h = unfold target_loop in refl
target_loop_absent target delay (x ∷ row) (apart, h) =
    loop_head target 0 delay x row false false refl (ground arith)
    ∙ target_loop_absent target (delay + 1) row h

start_position_absent :
    (target : ℕ) (row : List ℕ) → All (λ x. x ≢ target) row → start_position target row ≡ 0
unfolding start_position
start_position_absent target [] h = refl
start_position_absent target (x ∷ row) (apart, h) = ground arith

get_target_delay_absent :
    (target : ℕ) (row : List ℕ) → All (λ x. x ≢ target) row → get_target_delay target row ≡ 0
unfolding get_target_delay
get_target_delay_absent target row h =
    ap₂ (λ (p : ℕ) (b : Bool). if b then 0 else target_loop target p 0 row)
      (start_position_absent target row h) refl
    ∙ ap (λ (t : ℕ). if not (check_pfeb_bcids row) then 0 else t)
        (target_loop_absent target 0 row h)
    ∙ either_zero (not (check_pfeb_bcids row))
  where
    either_zero : (b : Bool) → ◌≡◌ {A = ℕ} (if b then 0 else 0) 0
    either_zero true = refl
    either_zero false = refl

get_target_delays_absent :
    (target : ℕ) (boards : List (List ℕ))
    → All (All (λ x. x ≢ target)) boards
    → get_target_delays target boards ≡ replicate (length boards) 0
unfolding get_target_delays
get_target_delays_absent target [] h = refl
get_target_delays_absent target (row ∷ boards) (h, hs) =
    ap₂ ◌∷◌ (get_target_delay_absent target row h) (get_target_delays_absent target boards hs)

-- When getTargetBcid finds no target, the delays are zero at every board, whatever they were: the
-- BCIDs that a board shows take four bits, and no_target is none of them.
pub get_target_delays-no_target :
    (boards : List (List ℕ))
    → All (All IsNibble) boards
    → get_target_delays no_target boards ≡ replicate (length boards) 0
get_target_delays-no_target boards h =
    get_target_delays_absent no_target boards (all_apart boards h)
  where
    apart : (row : List ℕ) → All IsNibble row → All (λ x. x ≢ no_target) row
    apart row k = All-map row (λ x small. omega arith) k

    all_apart :
        (rows : List (List ℕ)) → All (All IsNibble) rows → All (All (λ x. x ≢ no_target)) rows
    all_apart rows k = All-map rows apart k

-- The delays for a scan can be written: one of four bits for each board.
pub get_target_delays-scan :
    (target : ℕ) (boards : List (List ℕ))
    → IsScan boards
    → (length (get_target_delays target boards) ≡ 24)
      × All IsNibble (get_target_delays target boards)
get_target_delays-scan target boards (full, short) =
    (length-get_target_delays target boards ∙ full, get_target_delays-IsNibble target boards short)
