-- ===== src/Common/Assoc.antt =====
-- std::map and std::unordered_map with string keys: an association list with one entry for a key.
use Prim.Native.String.{String}
use mathlib.Core.Path.{◌≡◌, refl}
use mathlib.Core.Option.{Option, none, some, some-injective}
use mathlib.Core.List.{List, [], ◌∷◌}
use native.Mathlib.Omega.{arith}
use text.Mathlib.Text.{◌==◌}
use text.Mathlib.TextEquality.{eq_iff}
use mathlib.Core.Bool.{Bool, true}
use nswconfiguration.Common.Tests.{if◌then◌else◌}
use nswconfiguration.Common.Lists.{all}

abbrev pub Assoc {ℓ} : Type ℓ → Type ℓ
Assoc V = List (String × V)

module _ {ℓ} {V : Type ℓ} where
  unfoldable pub lookup : String → Assoc V → Option V
  lookup key [] = none
  lookup key (entry ∷ rest) = if entry.0 == key then some entry.1 else lookup key rest

  -- m[key] = v
  unfoldable pub insert : String → V → Assoc V → Assoc V
  insert key v [] = (key, v) ∷ []
  insert key v (entry ∷ rest) =
      if entry.0 == key then (key, v) ∷ rest else entry ∷ insert key v rest

  pub lookup-insert :
      (key asked : String) (v : V) (entries : Assoc V)
      → lookup asked (insert key v entries)
        ≡ (if key == asked then some v else lookup asked entries)
  unfolding lookup insert
  lookup-insert key asked v [] = refl
  lookup-insert key asked v (entry ∷ rest) = ground (
    arith,
    lookup-insert key asked v rest,
    eq_iff entry.0 key,
    eq_iff entry.0 asked,
    eq_iff key asked,
  )

pub lookup_empty {ℓ} : {V : Type ℓ} (k : String) → lookup {V = V} k [] ≡ none
unfolding lookup
lookup_empty k = refl

pub lookup-cons {ℓ} :
    {V : Type ℓ} (k j : String) (v : V) (m : Assoc V)
    → lookup k ((j, v) ∷ m) ≡ (if j == k then some v else lookup k m)
unfolding lookup
lookup-cons k j v m = refl

-- No key has two entries.
abbrev pub IsMap {ℓ} : {V : Type ℓ} → Assoc V → Type ℓ
IsMap [] = Unit
IsMap ((k, v) ∷ m) = (lookup k m ≡ none) × IsMap m

-- What holds at every entry holds at the one that is found.
pub lookup-all {ℓ} :
    {V : Type ℓ} (p : V → Bool) (k : String) (m : Assoc V) (v : V)
    → all (λ e. p e.1) m ≡ true
    → lookup k m ≡ some v
    → p v ≡ true
unfolding lookup
lookup-all p k [] v h e = cc
lookup-all p k (entry ∷ rest) v h e =
    ground (arith, lookup-all p k rest v, some-injective entry.1 v)
