-- ===== src/Common/Slices.antt =====
-- A window of a list, and the list with a window replaced.
use Prim.Native.Nat.{ℕ, zero, suc, ◌+◌, ◌-◌, ◌≤◌}
use mathlib.Core.Path.{◌≡◌, refl, sym, ap, ◌∙◌}
use mathlib.Core.List.{List, [], ◌∷◌, ◌++◌}
use native.Mathlib.Omega.{arith}
use native.Mathlib.Nat.{add-zero, add-suc, suc-add}
use nswconfiguration.Common.Lists.{length, take, drop, length-append, length-take, length-drop}

module _ {ℓ} {A : Type ℓ} where
  abbrev pub slice : ℕ → ℕ → List A → List A
  slice p n xs = take n (drop p xs)

  abbrev pub splice : ℕ → ℕ → List A → List A → List A
  splice p n ys xs = take p xs ++ (ys ++ drop (p + n) xs)

  take-append_left : (n : ℕ) (xs ys : List A) → n ≤ length xs → take n (xs ++ ys) ≡ take n xs
  take-append_left zero xs ys h = refl
  take-append_left (suc n) [] ys h = elim h [ ]
  take-append_left (suc n) (x ∷ xs) ys h = ap (◌∷◌ x) (take-append_left n xs ys (omega arith))

  pub drop-append_right :
      (n k : ℕ) (xs ys : List A) → n ≡ length xs + k → drop n (xs ++ ys) ≡ drop k ys
  drop-append_right n k [] ys h = ap (λ (t : ℕ). drop t ys) (omega arith)
  drop-append_right zero k (x ∷ xs) ys h = absurd (omega arith)
  drop-append_right (suc n) k (x ∷ xs) ys h = drop-append_right n k xs ys (omega arith)

  pub drop-append_left :
      (n : ℕ) (xs ys : List A) → n ≤ length xs → drop n (xs ++ ys) ≡ drop n xs ++ ys
  drop-append_left zero xs ys h = refl
  drop-append_left (suc n) [] ys h = elim h [ ]
  drop-append_left (suc n) (x ∷ xs) ys h = drop-append_left n xs ys (omega arith)

  pub take_all : (n : ℕ) (xs : List A) → n ≡ length xs → take n xs ≡ xs
  take_all zero [] h = refl
  take_all zero (x ∷ xs) h = absurd (omega arith)
  take_all (suc n) [] h = absurd (omega arith)
  take_all (suc n) (x ∷ xs) h = ap (◌∷◌ x) (take_all n xs (omega arith))

  pub drop-drop : (n k : ℕ) (xs : List A) → drop n (drop k xs) ≡ drop (k + n) xs
  drop-drop n zero xs = ap (λ (t : ℕ). drop t xs) (omega arith)
  drop-drop zero (suc k) [] = rw add-zero
  drop-drop (suc n) (suc k) [] = rw add-suc
  drop-drop n (suc k) (x ∷ xs) = rw (suc-add, drop-drop n k xs)

  -- A window of a concatenation that covers its middle part.
  pub slice-append_middle :
      (p n : ℕ) (xs ys zs : List A)
      → p ≡ length xs
      → n ≡ length ys
      → slice p n (xs ++ (ys ++ zs)) ≡ ys
  slice-append_middle p n xs ys zs hp hn =
      rw (drop-append_right p 0 xs (ys ++ zs) (omega arith))
        (take-append_left n ys zs (omega arith) ∙ take_all n ys hn)

  -- A window that lies in the first part.
  pub slice-append_left :
      (q t : ℕ) (xs ys : List A) → q + t ≤ length xs → slice q t (xs ++ ys) ≡ slice q t xs
  slice-append_left q t xs ys h =
      rw (drop-append_left q xs ys (omega arith))
        (take-append_left t (drop q xs) ys (omega (arith, length-drop q xs)))

  pub take-append-drop : (n : ℕ) (xs : List A) → take n xs ++ drop n xs ≡ xs
  take-append-drop zero xs = refl
  take-append-drop (suc n) [] = refl
  take-append-drop (suc n) (x ∷ xs) = ap (◌∷◌ x) (take-append-drop n xs)

  pub length-slice : (p n : ℕ) (xs : List A) → p + n ≤ length xs → length (slice p n xs) ≡ n
  length-slice p n xs h = omega (arith, length-take n (drop p xs), length-drop p xs)

module _ {ℓ} {A : Type ℓ} (p n : ℕ) (ys xs : List A) (fits : p + n ≤ length xs)
    (same : length ys ≡ n) where
  prefix_length : length (take p xs) ≡ p
  prefix_length = omega (arith, length-take p xs)

  pub length-splice : length (splice p n ys xs) ≡ length xs
  length-splice = omega (
    arith,
    prefix_length,
    length-append (take p xs) (ys ++ drop (p + n) xs),
    length-append ys (drop (p + n) xs),
    length-drop (p + n) xs,
  )

  pub slice-splice_self : slice p n (splice p n ys xs) ≡ ys
  slice-splice_self =
      slice-append_middle p n (take p xs) ys (drop (p + n) xs) (omega (arith, prefix_length))
        (sym same)

  pub slice-splice_before : (q t : ℕ) → q + t ≤ p → slice q t (splice p n ys xs) ≡ slice q t xs
  slice-splice_before q t h =
      slice-append_left q t (take p xs) (ys ++ drop (p + n) xs) (omega (arith, prefix_length))
      ∙ sym (slice-append_left q t (take p xs) (drop p xs) (omega (arith, prefix_length)))
      ∙ ap (slice q t) (take-append-drop p xs)

  pub slice-splice_after : (q t : ℕ) → p + n ≤ q → slice q t (splice p n ys xs) ≡ slice q t xs
  slice-splice_after q t h = ap (take t) (
      drop-append_right q (q - p) (take p xs) (ys ++ drop (p + n) xs) (omega (arith, prefix_length))
      ∙ drop-append_right (q - p) (q - (p + n)) ys (drop (p + n) xs) (omega arith)
      ∙ drop-drop (q - (p + n)) (p + n) xs
      ∙ ap (λ (k : ℕ). drop k xs) (omega arith))
