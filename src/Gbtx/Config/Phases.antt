-- ===== src/Gbtx/Config/Phases.antt =====
-- GBTxConfig::getPhasesVector of src/GBTxConfig.cpp, phase by phase.
use nswconfiguration.Common.{
  ℕ, zero, suc, ◌+◌, ◌*◌, ◌/◌, ◌%◌, ◌<◌, ◌≤◌, ◌≡◌, refl, sym, ap, ◌∙◌, arith, List, [], ◌∷◌, length,
  get_elem?, some,
}
use nswconfiguration.Common.Results.{ok}
use nswconfiguration.Gbtx.Config.{phases_loop, get_phases_vector}
use mathlib.Core.Option.{some-injective}
use nswconfiguration.Gbtx.Config.Bytes.{get_elem?-some}

-- The phases of the registers from i on, and the last one.
ArePhases : List ℕ → ℕ → ℕ → List ℕ → Type 0
ArePhases config i n phases =
    (length phases ≡ 2 * n + 1)
    × ((k b : ℕ)
        → k < n
        → get_elem? config (i + k) ≡ some b
        → (get_elem? phases (2 * k) ≡ some (b % 16))
          × (get_elem? phases (2 * k + 1) ≡ some (b / 16)))
    × ((b : ℕ) → get_elem? config 398 ≡ some b → get_elem? phases (2 * n) ≡ some (b % 16))

next_pair : (n : ℕ) → 2 * suc n ≡ suc (suc (2 * n))
next_pair n = omega arith

abbrev Pairs : List ℕ → ℕ → ℕ → List ℕ → Type 0
Pairs config i n phases =
    (k b : ℕ)
    → k < n
    → get_elem? config (i + k) ≡ some b
    → (get_elem? phases (2 * k) ≡ some (b % 16)) × (get_elem? phases (2 * k + 1) ≡ some (b / 16))

two_more :
    (config : List ℕ) (i n b : ℕ) (rest : List ℕ)
    → get_elem? config i ≡ some b
    → Pairs config (i + 1) n rest
    → Pairs config i (suc n) (b % 16 ∷ b / 16 ∷ rest)
two_more config i n b rest e pairs zero c small here =
    let same = some-injective b c (sym e ∙ ap (get_elem? config) (first i) ∙ here) in
    (ap (λ t. some (t % 16)) same, ap (λ t. some (t / 16)) same)
  where
    first : (j : ℕ) → j ≡ j + 0
    first j = omega arith
two_more config i n b rest e pairs (suc k) c small here =
    let (low, high) = pairs k c (omega arith) (ap (get_elem? config) (later i k) ∙ here) in
    (
      ap (get_elem? (b % 16 ∷ b / 16 ∷ rest)) (next_pair k) ∙ low,
      ap (get_elem? (b % 16 ∷ b / 16 ∷ rest)) (odd k) ∙ high,
    )
  where
    later : (j k : ℕ) → (j + 1) + k ≡ j + suc k
    later j k = omega arith

    odd : (k : ℕ) → 2 * suc k + 1 ≡ suc (suc (2 * k + 1))
    odd k = omega arith

phases_loop-ArePhases :
    (config : List ℕ) (i n : ℕ)
    → 398 < length config
    → i + n ≤ length config
    → (phases : List ℕ) × (phases_loop config i n ≡ ok phases) × ArePhases config i n phases
unfolding phases_loop ArePhases
phases_loop-ArePhases config i zero h k =
    let (b, e) = get_elem?-some config 398 h in
    (
      b % 16 ∷ [],
      rw e refl,
      (
        refl,
        (λ j c small here. absurd (omega arith)),
        λ c here. ap (λ t. some (t % 16)) (some-injective b c (sym e ∙ here)),
      ),
    )
phases_loop-ArePhases config i (suc n) h k =
    let (b, e) = get_elem?-some config i (omega arith) in
    let (rest, built, (long, pairs, last)) =
      phases_loop-ArePhases config (i + 1) n h (omega arith) in
    (
      b % 16 ∷ b / 16 ∷ rest,
      rw (e, built) refl,
      (
        omega (arith, long),
        two_more config i n b rest e pairs,
        λ c here. ap (get_elem? (b % 16 ∷ b / 16 ∷ rest)) (next_pair n) ∙ last c here,
      ),
    )

-- Of a vector of 436 bytes getPhasesVector gives 57 phases: for each k below 28 the low and the high
-- half of byte 399 + k stand next to each other, and the low half of byte 398 stands at the end.
pub get_phases_vector-bytes :
    (config : List ℕ) (k b ec : ℕ)
    → length config ≡ 436
    → k < 28
    → get_elem? config (399 + k) ≡ some b
    → get_elem? config 398 ≡ some ec
    → (phases : List ℕ) × (get_phases_vector config ≡ ok phases)
      × (length phases ≡ 57)
      × (get_elem? phases (2 * k) ≡ some (b % 16))
      × (get_elem? phases (2 * k + 1) ≡ some (b / 16))
      × (get_elem? phases 56 ≡ some (ec % 16))
unfolding get_phases_vector ArePhases
get_phases_vector-bytes config k b ec long small here last_here =
    let (phases, built, (count, pairs, last)) =
      phases_loop-ArePhases config 399 28 (omega arith) (omega arith) in
    let (low, high) = pairs k b small here in (phases, built, count, low, high, last ec last_here)
