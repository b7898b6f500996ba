-- ===== src/PadTrigger/Windows.antt =====
-- A board that checkPFEBBCIDs of src/hw/PadTrigger.cpp accepts shows each BCID at delays in a row.
use nswconfiguration.Common.{
  ℕ, suc, ◌+◌, ◌==◌, ◌≤◌, ◌≡◌, ◌≢◌, ◌⊎◌, inl, inr, refl, sym, ap, ◌∙◌, arith, ltb, leb, ◌&&◌, ◌||◌,
  Bool, true, false, Bool-cases, ==_iff, List, [], ◌∷◌, ◌++◌, map, reverse, replicate, All, All-map,
  if◌then◌else◌,
}
use nswconfiguration.PadTrigger.NibbleWords.{IsNibble}
use nswconfiguration.PadTrigger.Deskew.{is_sorted, rotate_pfeb_bcids, check_pfeb_bcids}
use mathlib.Core.List.{reverse-append}
use mathlib.Core.Path.{subst}

-- No later BCID has a greater key.
abbrev Descends : (ℕ → ℕ) → List ℕ → Type 0
Descends key [] = Unit
Descends key (x ∷ xs) = All (λ y. key y ≤ key x) xs × Descends key xs

sorted_front :
    (ys : List ℕ) (x : ℕ)
    → is_sorted (ys ++ (x ∷ [])) ≡ true
    → (is_sorted ys ≡ true) × All (λ y. y ≤ x) ys
unfolding is_sorted
sorted_front [] x h = (refl, tt)
sorted_front (y ∷ []) x h = (refl, (ground arith, tt))
sorted_front (y ∷ (z ∷ ys)) x h =
    let (first, rest) = both (leb y z) (is_sorted (z ∷ (ys ++ (x ∷ [])))) h in
    let (sorted, below) = sorted_front (z ∷ ys) x rest in
    (ground (arith, first, sorted), (ground (arith, first, below.0), below))
  where
    both : (a b : Bool) → (a && b) ≡ true → (a ≡ true) × (b ≡ true)
    both true b h = (refl, h)
    both false b h = cc

All-front {ℓ κ} :
    {A : Type ℓ} (P : A → Type κ) (ys : List A) (x : A) → All P (ys ++ (x ∷ [])) → All P ys × P x
All-front P [] x h = (tt, h.0)
All-front P (y ∷ ys) x h = let (rest, last) = All-front P ys x h.1 in ((h.0, rest), last)

reverse-cons {ℓ} : {A : Type ℓ} (x : A) (xs : List A) → reverse (x ∷ xs) ≡ reverse xs ++ (x ∷ [])
reverse-cons x xs = reverse-append (x ∷ []) xs

All-reverse {ℓ κ} : {A : Type ℓ} (P : A → Type κ) (xs : List A) → All P (reverse xs) → All P xs
All-reverse P [] h = tt
All-reverse P (x ∷ xs) h =
    let (rest, first) = All-front P (reverse xs) x (subst (All P) (reverse-cons x xs) h) in
    (first, All-reverse P xs rest)

All-unmap {ℓ} :
    {A : Type ℓ} (f : A → ℕ) (n : ℕ) (xs : List A)
    → All (λ y. y ≤ n) (map f xs)
    → All (λ x. f x ≤ n) xs
All-unmap f n [] h = tt
All-unmap f n (x ∷ xs) h = (h.0, All-unmap f n xs h.1)

-- std::is_sorted from the end to the front
is_sorted-Descends :
    (key : ℕ → ℕ) (xs : List ℕ) → is_sorted (reverse (map key xs)) ≡ true → Descends key xs
is_sorted-Descends key [] h = tt
is_sorted-Descends key (x ∷ xs) h =
    let (sorted, below) =
      sorted_front (reverse (map key xs)) (key x)
        (ap is_sorted (sym (reverse-cons (key x) (map key xs))) ∙ h) in
    (
      All-unmap key (key x) xs (All-reverse (λ y. y ≤ key x) (map key xs) below),
      is_sorted-Descends key xs sorted,
    )

-- The delays of a board that show the target come in a row.
abbrev pub Window : ℕ → List ℕ → List ℕ → ℕ → List ℕ → Type 0
Window target row pre n post =
    (row ≡ pre ++ (replicate n target ++ post))
    × All (λ x. x ≢ target) pre
    × All (λ x. x ≢ target) post

module _ (key : ℕ → ℕ) (one_to_one : (x y : ℕ) → IsNibble x → IsNibble y → key x ≡ key y → x ≡ y)
    (target : ℕ) where
  window_rest :
      (xs : List ℕ)
      → IsNibble target
      → All IsNibble xs
      → All (λ y. key y ≤ key target) xs
      → Descends key xs
      → (n : ℕ) × (post : List ℕ) × (xs ≡ replicate n target ++ post) × All (λ x. x ≢ target) post
  window_rest [] nibble small below h = (0, [], refl, tt)
  window_rest (y ∷ ys) nibble small below h = elim (Bool-cases (y == target)) [
    | inl hit ↦
        let (n, post, e, apart) = window_rest ys nibble small.1 below.1 h.1 in
        (suc n, post, cons_same ((==_iff y target).0 hit) e, apart)
    | inr miss ↦
        let other : y ≢ target = ground arith in (0, y ∷ ys, refl, (other, later other ys h.0))
  ]
    where
      cons_same : {a b : ℕ} {l m : List ℕ} → a ≡ b → l ≡ m → (a ∷ l) ≡ (b ∷ m)
      cons_same e k = cc

      later : y ≢ target → (zs : List ℕ) → All (λ z. key z ≤ key y) zs → All (λ z. z ≢ target) zs
      later other zs k = All-map zs (λ z le. lower z le) k
        where
          lower : (z : ℕ) → key z ≤ key y → z ≢ target
          lower z le same =
              let back : key target ≤ key y = subst (λ t. key t ≤ key y) same le in
              other (one_to_one y target small.0 nibble (omega (arith, back, below.0)))

  Descends-Window :
      (row : List ℕ)
      → All IsNibble row
      → Descends key row
      → (pre : List ℕ) × (n : ℕ) × (post : List ℕ) × Window target row pre n post
  Descends-Window [] small h = ([], 0, [], (refl, tt, tt))
  Descends-Window (x ∷ xs) small h = elim (Bool-cases (x == target)) [
    | inl hit ↦
        let same = (==_iff x target).0 hit in
        let (n, post, e, apart) =
          window_rest xs (subst IsNibble same small.0) small.1
            (subst (λ t. All (λ y. key y ≤ key t) xs) same h.0) h.1 in
        ([], suc n, post, (cons_same same e, tt, apart))
    | inr miss ↦
        let (pre, n, post, (e, before, after)) = Descends-Window xs small.1 h.1 in
        (x ∷ pre, n, post, (cons_same refl e, (ground arith, before), after))
  ]
    where
      cons_same : {a b : ℕ} {l m : List ℕ} → a ≡ b → l ≡ m → (a ∷ l) ≡ (b ∷ m)
      cons_same e k = cc

rotated : ℕ → ℕ
rotated bcid = if ltb bcid 8 then bcid + 16 else bcid

rotated-injective : (x y : ℕ) → IsNibble x → IsNibble y → rotated x ≡ rotated y → x ≡ y
unfolding rotated
rotated-injective x y hx hy e = ground arith

map_same : (xs : List ℕ) → map (λ x. x) xs ≡ xs
map_same [] = refl
map_same (x ∷ xs) = ap (λ l. x ∷ l) (map_same xs)

some_test : (a b c : Bool) → (a && (b || c)) ≡ true → (b ≡ true) ⊎ (c ≡ true)
some_test true true c h = inl refl
some_test true false c h = inr h
some_test false b c h = cc

-- A board of BCIDs of four bits that is accepted has a window for each target.
pub check_pfeb_bcids-Window :
    (target : ℕ) (row : List ℕ)
    → All IsNibble row
    → check_pfeb_bcids row ≡ true
    → (pre : List ℕ) × (n : ℕ) × (post : List ℕ) × Window target row pre n post
unfolding check_pfeb_bcids rotate_pfeb_bcids rotated
check_pfeb_bcids-Window target [] small h = cc
check_pfeb_bcids-Window target (x ∷ row) small h = elim (some_test _ _ _ h) [
  | inl plain ↦
      Descends-Window (λ b. b) (λ a b ha hb e. e) target (x ∷ row) small
        (is_sorted-Descends (λ b. b) (x ∷ row)
          (ap (λ l. is_sorted (reverse l)) (map_same (x ∷ row)) ∙ plain))
  | inr turned ↦
      Descends-Window rotated rotated-injective target (x ∷ row) small
        (is_sorted-Descends rotated (x ∷ row) turned)
]
