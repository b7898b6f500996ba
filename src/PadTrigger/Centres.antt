-- ===== src/PadTrigger/Centres.antt =====
-- The delay that getTargetDelay of src/hw/PadTrigger.cpp chooses is the centre of the target's window.
use nswconfiguration.Common.{
  ℕ, zero, suc, ◌+◌, ◌-◌, ◌%◌, ◌^◌, ◌==◌, ◌≤◌, ◌<◌, ◌≡◌, ◌≢◌, ◌⊎◌, inl, inr, refl, ap, ◌∙◌, arith,
  ltb, leb, ◌&&◌, Bool, true, false, not, List, [], ◌∷◌, ◌++◌, length, length-append,
  length-replicate, replicate, All, Bool-cases, if◌then◌else◌,
}
use nswconfiguration.PadTrigger.Deskew.{
  count, check_pfeb_bcids, target_loop, start_position, get_target_delay,
}
use nswconfiguration.PadTrigger.NibbleWords.{IsNibble}
use nswconfiguration.PadTrigger.Windows.{Window, check_pfeb_bcids-Window}
use nswconfiguration.PadTrigger.TargetDelays.{loop_head}
use mathlib.Core.Path.{ap₂}

equal_self : (a : ℕ) → (a == a) ≡ true
equal_self a = ground arith

-- The delays that do not show the target leave the position.
loop_skips :
    (target pos delay : ℕ) (xs rest : List ℕ)
    → pos ≢ 3
    → All (λ x. x ≢ target) xs
    → target_loop target pos delay (xs ++ rest) ≡ target_loop target pos (delay + length xs) rest
loop_skips target pos delay [] rest h apart =
    ap (λ (d : ℕ). target_loop target pos d rest) (omega arith)
loop_skips target pos delay (x ∷ xs) rest h (other, apart) =
    loop_head target pos delay x (xs ++ rest) false false (ground arith) (ground arith)
    ∙ loop_skips target pos (delay + 1) xs rest h apart
    ∙ ap (λ (d : ℕ). target_loop target pos d rest) (omega arith)

-- The next k positions come before the position 3, also where they wrap around.
abbrev Before : ℕ → ℕ → Type 0
Before pos k = (pos + k ≤ 3) ⊎ ((3 < pos) × (pos + k ≤ 2 ^ 64 + 3))

Before-next :
    (pos k : ℕ) → pos < 2 ^ 64 → Before pos (suc k) → (pos ≢ 3) × Before ((pos + 1) % 2 ^ 64) k
Before-next pos k word (inl low) = (λ e. omega (arith, e), inl (omega arith))
Before-next pos k word (inr (high, wraps)) = (λ e. omega (arith, e), at_end)
  where
    at_end : Before ((pos + 1) % 2 ^ 64) k
    at_end = ground arith

-- Each delay that shows the target advances the position by one.
loop_counts :
    (k target pos delay : ℕ) (rest : List ℕ)
    → pos < 2 ^ 64
    → Before pos k
    → target_loop target pos delay (replicate k target ++ rest)
      ≡ target_loop target ((pos + k) % 2 ^ 64) (delay + k) rest
loop_counts zero target pos delay rest word h =
    ap₂ (λ (p d : ℕ). target_loop target p d rest) (omega arith) (omega arith)
loop_counts (suc k) target pos delay rest word h =
    let (not_yet, later) = Before-next pos k word h in
    loop_head target pos delay target (replicate k target ++ rest) false true (ground arith)
      (equal_self target)
    ∙ loop_counts k target ((pos + 1) % 2 ^ 64) (delay + 1) rest (omega arith) later
    ∙ ap₂ (λ (p d : ℕ). target_loop target p d rest) (omega arith) (omega arith)

-- A loop that ends without the position 3 gives 0.
loop_ends :
    (target pos delay : ℕ) (xs : List ℕ)
    → pos ≢ 3
    → All (λ x. x ≢ target) xs
    → target_loop target pos delay xs ≡ 0
loop_ends target pos delay [] h apart = unfold target_loop in refl
loop_ends target pos delay (x ∷ xs) h (other, apart) =
    loop_head target pos delay x xs false false (ground arith) (ground arith)
    ∙ loop_ends target pos (delay + 1) xs h apart

replicate-add {ℓ} :
    {A : Type ℓ} (k m : ℕ) (a : A) (rest : List A)
    → replicate (k + m) a ++ rest ≡ replicate k a ++ (replicate m a ++ rest)
replicate-add zero m a rest = ap (λ (n : ℕ). replicate n a ++ rest) (omega arith)
replicate-add (suc k) m a rest =
    ap (λ (n : ℕ). replicate n a ++ rest) {x = suc k + m} {y = suc (k + m)} (omega arith)
    ∙ ap (λ (l : List _). a ∷ l) (replicate-add k m a rest)

-- The loop stops at the delay where the position is 3.
loop_stops :
    (k target pos delay x : ℕ) (rest : List ℕ)
    → pos < 2 ^ 64
    → Before pos k
    → (pos + k) % 2 ^ 64 ≡ 3
    → target_loop target pos delay (replicate k target ++ (x ∷ rest)) ≡ delay + k
loop_stops k target pos delay x rest word h centre =
    loop_counts k target pos delay (x ∷ rest) word h
    ∙ loop_head target ((pos + k) % 2 ^ 64) (delay + k) x rest true (x == target)
        (ground (arith, centre)) refl

count_run :
    (n target : ℕ) (post : List ℕ)
    → All (λ x. x ≢ target) post
    → count target (replicate n target ++ post) ≡ n
unfolding count
count_run zero target [] apart = refl
count_run zero target (x ∷ post) (other, apart) = ground (arith, count_run zero target post apart)
count_run (suc n) target post apart = ground (arith, count_run n target post apart)

start_at_front :
    (n target : ℕ) (post : List ℕ)
    → All (λ x. x ≢ target) post
    → start_position target (replicate (suc n) target ++ post) ≡ (2 ^ 64 + 6 - suc n) % 2 ^ 64
unfolding start_position
start_at_front n target post apart =
    ap₂ (λ (b : Bool) (c : ℕ). if b then (2 ^ 64 + 6 - c) % 2 ^ 64 else 0) (equal_self target)
      (count_run (suc n) target post apart)

start_elsewhere : (x target : ℕ) (row : List ℕ) → x ≢ target → start_position target (x ∷ row) ≡ 0
unfolding start_position
start_elsewhere x target row other = ground arith

-- The delay for a window of n delays that show the target, behind `before` others and before `after`
-- others. The window takes six delays: one that is cut off at the first delay is measured from its
-- end, any other from its start.
abbrev pub centre : ℕ → ℕ → ℕ → ℕ
centre zero n after = n - 3
centre (suc before) n after = if ltb 2 n && ltb 3 (n + after) then suc before + 3 else 0

abbrev run_from : ℕ → List ℕ → ℕ
run_from target row = target_loop target (start_position target row) 0 row

at_front :
    (n target : ℕ) (post : List ℕ)
    → n < 2 ^ 64
    → All (λ x. x ≢ target) post
    → run_from target (replicate n target ++ post) ≡ n - 3
at_front zero target [] word apart = unfold target_loop in refl
at_front zero target (x ∷ post) word (other, apart) =
    ap (λ (p : ℕ). target_loop target p 0 (x ∷ post)) (start_elsewhere x target post other)
    ∙ loop_ends target 0 0 (x ∷ post) (λ e. omega (arith, e)) (other, apart)
at_front (suc zero) target post word apart =
    ap (λ (p : ℕ). target_loop target p 0 (replicate 1 target ++ post))
      (start_at_front 0 target post apart)
    ∙ loop_counts 1 target 5 0 post (omega arith) (inr (omega arith, omega arith))
    ∙ loop_ends target 6 1 post (λ e. omega (arith, e)) apart
at_front (suc (suc zero)) target post word apart =
    ap (λ (p : ℕ). target_loop target p 0 (replicate 2 target ++ post))
      (start_at_front 1 target post apart)
    ∙ loop_counts 2 target 4 0 post (omega arith) (inr (omega arith, omega arith))
    ∙ loop_ends target 6 2 post (λ e. omega (arith, e)) apart
at_front (suc (suc (suc k))) target post word apart =
    ap₂ (λ (p : ℕ) (l : List ℕ). target_loop target p 0 l)
      (start_at_front (suc (suc k)) target post apart) three_left
    ∙ loop_stops k target ((2 ^ 64 + 6 - suc (suc (suc k))) % 2 ^ 64) 0 target
        (target ∷ target ∷ post) (omega arith) (wraps (leb k 3) refl) (omega arith)
    ∙ omega arith
  where
    three_left :
        replicate (suc (suc (suc k))) target ++ post
        ≡ replicate k target ++ (target ∷ target ∷ target ∷ post)
    three_left =
        ap (λ (n : ℕ). replicate n target ++ post) {x = suc (suc (suc k))} {y = k + 3} (omega arith)
        ∙ replicate-add k 3 target post

    wraps : (few : Bool) → leb k 3 ≡ few → Before ((2 ^ 64 + 6 - suc (suc (suc k))) % 2 ^ 64) k
    wraps true h = let small : k ≤ 3 = ground arith in inl (omega arith)
    wraps false h = let large : 3 < k = ground arith in inr (omega arith, omega arith)

behind :
    (x : ℕ) (pre : List ℕ) (n target : ℕ) (post : List ℕ)
    → x ≢ target
    → All (λ y. y ≢ target) pre
    → All (λ y. y ≢ target) post
    → run_from target (x ∷ (pre ++ (replicate n target ++ post)))
      ≡ centre (suc (length pre)) n (length post)
behind x pre n target post other before after =
    ap (λ (p : ℕ). target_loop target p 0 (x ∷ (pre ++ (replicate n target ++ post))))
      (start_elsewhere x target (pre ++ (replicate n target ++ post)) other)
    ∙ loop_skips target 0 0 (x ∷ pre) (replicate n target ++ post) (λ e. omega (arith, e))
        (other, before)
    ∙ from_window n post after
  where
    from_window :
        (n : ℕ) (post : List ℕ)
        → All (λ y. y ≢ target) post
        → target_loop target 0 (0 + suc (length pre)) (replicate n target ++ post)
          ≡ centre (suc (length pre)) n (length post)
    from_window zero post after = loop_ends target 0 _ post (λ e. omega (arith, e)) after
    from_window (suc zero) post after =
        loop_counts 1 target 0 _ post (omega arith) (inl (omega arith))
        ∙ loop_ends target 1 _ post (λ e. omega (arith, e)) after
    from_window (suc (suc zero)) post after =
        loop_counts 2 target 0 _ post (omega arith) (inl (omega arith))
        ∙ loop_ends target 2 _ post (λ e. omega (arith, e)) after
    from_window (suc (suc (suc zero))) [] after =
        loop_counts 3 target 0 _ [] (omega arith) (inl (omega arith)) ∙ unfold target_loop in refl
    from_window (suc (suc (suc zero))) (y ∷ post) after =
        loop_stops 3 target 0 _ y post (omega arith) (inl (omega arith)) refl ∙ ground arith
    from_window (suc (suc (suc (suc k)))) post after =
        loop_stops 3 target 0 _ target (replicate k target ++ post) (omega arith)
          (inl (omega arith)) refl
        ∙ ground arith

get_target_delay_window :
    (target : ℕ) (pre : List ℕ) (n : ℕ) (post : List ℕ)
    → n < 2 ^ 64
    → All (λ x. x ≢ target) pre
    → All (λ x. x ≢ target) post
    → run_from target (pre ++ (replicate n target ++ post)) ≡ centre (length pre) n (length post)
get_target_delay_window target [] n post word before after = at_front n target post word after
get_target_delay_window target (x ∷ pre) n post word (other, before) after =
    behind x pre n target post other before after

Window-le-length :
    (target : ℕ) (row pre : List ℕ) (n : ℕ) (post : List ℕ)
    → Window target row pre n post
    → n ≤ length row
Window-le-length target row pre n post (e, before, after) = omega (
  arith,
  ap length e,
  length-append pre (replicate n target ++ post),
  length-append (replicate n target) post,
  length-replicate n target,
)

-- A board of BCIDs of four bits, at less than 2 ^ 64 delays, that checkPFEBBCIDs refuses gets the delay
-- 0 of getTargetDelay. One that it accepts shows the target at n delays in a row and at no other, and
-- gets n - 3, or 0 if n is smaller, when the first delay shows the target; else the third delay after
-- the first that does, when there are three at least and the board was read at that delay, and 0 when
-- not.
pub get_target_delay-centre :
    (target : ℕ) (row : List ℕ)
    → All IsNibble row
    → length row < 2 ^ 64
    → ((check_pfeb_bcids row ≡ false) × (get_target_delay target row ≡ 0))
      ⊎ ((check_pfeb_bcids row ≡ true)
          × ((pre : List ℕ) × (n : ℕ) × (post : List ℕ) × Window target row pre n post
              × (get_target_delay target row ≡ centre (length pre) n (length post))))
unfolding get_target_delay
get_target_delay-centre target row small word = elim (Bool-cases (check_pfeb_bcids row)) [
  | inr refused ↦ inl (refused, ap (λ (b : Bool). if not b then 0 else run_from target row) refused)
  | inl accepted ↦
      let (pre, n, post, (e, before, after)) = check_pfeb_bcids-Window target row small accepted in
      inr (
        accepted,
        (
          pre,
          n,
          post,
          (e, before, after),
          ap (λ (b : Bool). if not b then 0 else run_from target row) accepted
              ∙ ap (run_from target) e
              ∙ get_target_delay_window target pre n post
                  (omega (arith, word, Window-le-length target row pre n post (e, before, after)))
                  before after,
        ),
      )
]
