-- ===== src/I2c/Layout.antt =====
-- Where calculateSizesAndPositions of src/I2cMasterConfig.cpp places the registers of an address.
use nswconfiguration.Common.{
  ℕ, ◌+◌, ◌≤◌, ◌≡◌, ◌≢◌, refl, sym, ap, ◌∙◌, arith, String, str_eq, Bool, true, false, List, [],
  ◌∷◌, if◌then◌else◌, some, ◌⊎◌, inl, inr, Bool-cases, eq_iff,
}
use nswconfiguration.Common.Assoc.{Assoc, lookup, insert, lookup-insert, lookup_empty}
use mathlib.Core.Path.{ap₂, subst}
use nswconfiguration.Stream.{total}
use nswconfiguration.Utility.{not_used}
use nswconfiguration.I2c.Codec.{RegisterSize, size_of, layout_loop}

-- The register `r` stands at position `p` of a register vector.
abbrev pub At : List RegisterSize → ℕ → RegisterSize → Type 0
At [] p r = ⊥
At (q ∷ rest) p r = ((p ≡ 0) × (q ≡ r)) ⊎ ((p' : ℕ) × (p ≡ q.1 + p') × At rest p' r)

pub At-bound :
    (registers : List RegisterSize) (p : ℕ) (r : RegisterSize)
    → At registers p r
    → p + r.1 ≤ total size_of registers
At-bound [] p r a = elim a [ ]
At-bound (q ∷ rest) p r (inl (here, same)) = omega (arith, ap size_of same)
At-bound (q ∷ rest) p r (inr (p', later, a)) = omega (arith, At-bound rest p' r a)

-- Two registers of different names do not share a bit.
pub At-disjoint :
    (registers : List RegisterSize) (p q : ℕ) (r t : RegisterSize)
    → At registers p r
    → At registers q t
    → r.0 ≢ t.0
    → (p + r.1 ≤ q) ⊎ (q + t.1 ≤ p)
At-disjoint [] p q r t a b other = elim a [ ]
At-disjoint (x ∷ rest) p q r t (inl (hp, same)) (inl (hq, same')) other =
    absurd (other (ap (λ y. y.0) (sym same ∙ same')))
At-disjoint (x ∷ rest) p q r t (inl (hp, same)) (inr (q', hq, b)) other =
    inl (omega (arith, ap size_of same))
At-disjoint (x ∷ rest) p q r t (inr (p', hp, a)) (inl (hq, same)) other =
    inr (omega (arith, ap size_of same))
At-disjoint (x ∷ rest) p q r t (inr (p', hp, a)) (inr (q', hq, b)) other =
    elim (At-disjoint rest p' q' r t a b other) [
      | inl h ↦ inl (omega arith)
      | inr h ↦ inr (omega arith)
    ]

-- What the loop stores for a name: a place of the vector, or what was stored before.
abbrev Origin : List RegisterSize → ℕ → Assoc ℕ → Assoc ℕ → String → ℕ → ℕ → Type 0
Origin registers pos positions sizes name p n =
    ((p' : ℕ) × (p ≡ pos + p') × At registers p' (name, n))
    ⊎ ((lookup name positions ≡ some p) × (lookup name sizes ≡ some n))

-- One round of the loop stores the register at hand, or leaves what was stored.
stored :
    (unused : Bool) (other name : String) (pos size p n : ℕ) (positions sizes : Assoc ℕ)
    → lookup name (if unused then positions else insert other pos positions) ≡ some p
    → lookup name (if unused then sizes else insert other size sizes) ≡ some n
    → ((p ≡ pos) × (other ≡ name) × (n ≡ size))
      ⊎ ((lookup name positions ≡ some p) × (lookup name sizes ≡ some n))
stored true other name pos size p n positions sizes hp hn = inr (hp, hn)
stored false other name pos size p n positions sizes hp hn = ground (
  arith,
  lookup-insert other name pos positions,
  lookup-insert other name size sizes,
  eq_iff other name,
)

layout_loop-Origin :
    (registers : List RegisterSize) (pos : ℕ) (positions sizes : Assoc ℕ) (name : String) (p n : ℕ)
    → lookup name (layout_loop registers pos positions sizes).0 ≡ some p
    → lookup name (layout_loop registers pos positions sizes).1 ≡ some n
    → Origin registers pos positions sizes name p n
unfolding layout_loop
layout_loop-Origin [] pos positions sizes name p n hp hn = inr (hp, hn)
layout_loop-Origin ((other, size) ∷ rest) pos positions sizes name p n hp hn =
    elim (layout_loop-Origin rest (pos + size) _ _ name p n hp hn) [
      | inl (p', e, a) ↦ inl (size + p', omega arith, inr (p', refl, a))
      | inr (hp', hn') ↦
          elim (stored (str_eq other not_used) other name pos size p n positions sizes hp' hn') [
            | inl (e, same, en) ↦
                inl (0, omega arith, inl (refl, ap₂ (λ a b. (a, b)) same (sym en)))
            | inr old ↦ inr old
          ]
    ]

-- The maps of an address hold places of its register vector.
pub layout_loop-At :
    (registers : List RegisterSize) (name : String) (p n : ℕ)
    → lookup name (layout_loop registers 0 [] []).0 ≡ some p
    → lookup name (layout_loop registers 0 [] []).1 ≡ some n
    → At registers p (name, n)
layout_loop-At registers name p n hp hn =
    elim (layout_loop-Origin registers 0 [] [] name p n hp hn) [
      | inl (p', e, a) ↦ subst (λ t. At registers t (name, n)) (omega arith) a
      | inr (hp', hn') ↦ cc (lookup_empty {V = ℕ} name)
    ]

-- Every name of the position map is in the size map.
layout_loop-sizes :
    (registers : List RegisterSize) (pos : ℕ) (positions sizes : Assoc ℕ) (name : String)
    → ((p : ℕ) → lookup name positions ≡ some p → (n : ℕ) × (lookup name sizes ≡ some n))
    → (p : ℕ) → lookup name (layout_loop registers pos positions sizes).0 ≡ some p
    → (n : ℕ) × (lookup name (layout_loop registers pos positions sizes).1 ≡ some n)
unfolding layout_loop
layout_loop-sizes [] pos positions sizes name both p h = both p h
layout_loop-sizes ((other, size) ∷ rest) pos positions sizes name both p h =
    layout_loop-sizes rest (pos + size) _ _ name (still (str_eq other not_used)) p h
  where
    still :
        (unused : Bool) (q : ℕ)
        → lookup name (if unused then positions else insert other pos positions) ≡ some q
        → (n : ℕ) × (lookup name (if unused then sizes else insert other size sizes) ≡ some n)
    still true q e = both q e
    still false q e = elim (Bool-cases (str_eq other name)) [
      | inl same ↦ (
        size,
        lookup-insert other name size sizes
            ∙ ap (λ b. if b then some size else lookup name sizes) same,
      )
      | inr differ ↦
          let (n, f) = both q (
            ap (λ b. if b then some pos else lookup name positions) (sym differ)
            ∙ sym (lookup-insert other name pos positions)
            ∙ e) in
          (
            n,
            lookup-insert other name size sizes
                ∙ ap (λ b. if b then some size else lookup name sizes) differ
                ∙ f,
          )
    ]

pub layout_loop_both :
    (registers : List RegisterSize) (name : String) (p : ℕ)
    → lookup name (layout_loop registers 0 [] []).0 ≡ some p
    → (n : ℕ) × (lookup name (layout_loop registers 0 [] []).1 ≡ some n)
layout_loop_both registers name p h =
    layout_loop-sizes registers 0 [] [] name (λ q e. cc (lookup_empty {V = ℕ} name)) p h
