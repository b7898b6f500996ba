-- ===== src/PadTrigger/Columns.antt =====
-- The matrix of BCIDs that src/hw/PadTrigger.cpp collects, a row for each front-end board.
use nswconfiguration.Common.{
  ℕ, suc, ◌≡◌, refl, ap, arith, List, [], ◌∷◌, ◌++◌, length, length-append, All,
}
use nswconfiguration.Common.Results.{Result, ok, err, ◌>>=◌, out_of_range}
use nswconfiguration.PadTrigger.Deskew.{median}
use nswconfiguration.PadTrigger.Medians.{median-ok}

-- PadTrigger::pushBackColumn: matrix.at throws when the column is longer.
unfoldable pub push_back_column : List (List ℕ) → List ℕ → Result (List (List ℕ))
push_back_column matrix [] = ok matrix
push_back_column [] (x ∷ column) = err out_of_range
push_back_column (row ∷ matrix) (x ∷ column) = do
  rest ← push_back_column matrix column
  ok ((row ++ (x ∷ [])) ∷ rest)

-- The median of each row: v.at throws on an empty one.
unfoldable pub medians : List (List ℕ) → Result (List ℕ)
medians [] = ok []
medians (row ∷ rows) = do bcid ← median row; bcids ← medians rows; ok (bcid ∷ bcids)

-- A column as long as the matrix adds one element to each row.
pub push_back_column-ok :
    (n : ℕ) (matrix : List (List ℕ)) (column : List ℕ)
    → length column ≡ length matrix
    → All (λ row. length row ≡ n) matrix
    → (grown : List (List ℕ)) × (push_back_column matrix column ≡ ok grown)
      × (length grown ≡ length matrix)
      × All (λ row. length row ≡ suc n) grown
unfolding push_back_column
push_back_column-ok n [] [] h k = ([], refl, refl, tt)
push_back_column-ok n (row ∷ matrix) [] h k = absurd (omega arith)
push_back_column-ok n [] (x ∷ column) h k = absurd (omega arith)
push_back_column-ok n (row ∷ matrix) (x ∷ column) h (k, ks) =
    let (rest, run, same, longer) = push_back_column-ok n matrix column (omega arith) ks in
    (
      (row ++ (x ∷ [])) ∷ rest,
      rw run refl,
      ap suc same,
      (omega (arith, length-append row (x ∷ [])), longer),
    )

pub medians-ok :
    (n : ℕ) (rows : List (List ℕ))
    → All (λ row. length row ≡ suc n) rows
    → (bcids : List ℕ) × (medians rows ≡ ok bcids) × (length bcids ≡ length rows)
unfolding medians
medians-ok n [] h = ([], refl, refl)
medians-ok n ([] ∷ rows) (h, hs) = absurd (omega arith)
medians-ok n ((x ∷ row) ∷ rows) (h, hs) =
    let (bcid, one) = median-ok x row in
    let (bcids, run, same) = medians-ok n rows hs in (bcid ∷ bcids, rw (one, run) refl, ap suc same)
