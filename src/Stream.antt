-- ===== src/Stream.antt =====
-- The loop that the codecs share: for (row : rows) stream << field(row), ended by the first
-- exception. Lemmas for any field function, so that each codec has them at its own.
use nswconfiguration.Common.{
  ℕ, ◌+◌, ◌≡◌, refl, sym, ap, ◌∙◌, arith, List, [], ◌∷◌, ◌++◌, append_assoc, length, slice, All,
  length-append, slice-append_middle, drop-append_right, take,
}
use nswconfiguration.Common.Results.{Issue, Result, ok, err, ◌>>=◌, >>=-eq-ok}
use nswconfiguration.Bits.{BitString}

module _ {ℓ} {R : Type ℓ} (field : R → Result BitString) where
  unfoldable pub stream : List R → Result BitString
  stream [] = ok []
  stream (r ∷ rows) = do text ← field r; rest ← stream rows; ok (text ++ rest)

abbrev pub total {ℓ} : {R : Type ℓ} → (R → ℕ) → List R → ℕ
total size [] = 0
total size (r ∷ rows) = size r + total size rows

module _ {ℓ} {R : Type ℓ} (field : R → Result BitString) where
  -- A successful loop is a successful field and a successful loop over the rest.
  pub stream-cons :
      (r : R) (rows : List R) {s : BitString}
      → stream field (r ∷ rows) ≡ ok s
      → (text : BitString) × (rest : BitString) × (field r ≡ ok text)
        × (stream field rows ≡ ok rest)
        × (s ≡ text ++ rest)
  unfolding stream
  stream-cons r rows h =
      let (text, p, q) = >>=-eq-ok (field r) _ h in
      let (rest, u, v) = >>=-eq-ok (stream field rows) _ q in (text, rest, p, u, cc)

  pub length-stream :
      (size : R → ℕ) (rows : List R) {s : BitString}
      → ((r : R) (text : BitString) → field r ≡ ok text → length text ≡ size r)
      → stream field rows ≡ ok s
      → length s ≡ total size rows
  length-stream size [] {s} sized h = ap length {x = s} {y = []} (unfold stream in cc)
  length-stream size (r ∷ rows) {s} sized h =
      let (text, rest, p, q, e) = stream-cons r rows h in
      ap length e
      ∙ omega (arith, length-append text rest, sized r text p, length-stream size rows sized q)

  -- The field of a row stands behind the fields of the rows in front of it.
  pub slice-stream :
      (size : R → ℕ) (front : List R) (r : R) (back : List R) {s : BitString}
      → ((q : R) (text : BitString) → field q ≡ ok text → length text ≡ size q)
      → stream field (front ++ (r ∷ back)) ≡ ok s
      → field r ≡ ok (slice (total size front) (size r) s)
  slice-stream size [] r back sized h =
      let (text, rest, p, q, e) = stream-cons r back h in
      p
      ∙ ap ok (
          sym (slice-append_middle 0 (size r) [] text rest refl (sym (sized r text p)))
          ∙ ap (slice 0 (size r)) (sym e))
  slice-stream size (f ∷ front) r back sized h =
      let (text, rest, p, q, e) = stream-cons f (front ++ (r ∷ back)) h in
      slice-stream size front r back sized q
      ∙ ap ok (
          sym (
            ap (take (size r)) (
              drop-append_right (size f + total size front) (total size front) text rest
                (omega (arith, sized f text p))))
          ∙ ap (slice (size f + total size front) (size r)) (sym e))

  -- The loop ends well if every field does.
  pub stream_total :
      (rows : List R)
      → All (λ r. (text : BitString) × (field r ≡ ok text)) rows
      → (s : BitString) × (stream field rows ≡ ok s)
  unfolding stream
  stream_total [] h = ([], refl)
  stream_total (r ∷ rows) ((text, good), h) =
      let (rest, e) = stream_total rows h in (text ++ rest, rw (good, e))

  -- The first exception ends the loop.
  pub stream_fails :
      (front : List R) (r : R) (back : List R) (e : Issue)
      → All (λ q. (text : BitString) × (field q ≡ ok text)) front
      → field r ≡ err e
      → stream field (front ++ (r ∷ back)) ≡ err e
  unfolding stream
  stream_fails [] r back e h bad = rw bad
  stream_fails (f ∷ front) r back e ((text, good), h) bad =
      rw (good, stream_fails front r back e h bad)

  -- Each field of a loop that ended well ended well.
  pub stream-All :
      (rows : List R) {s : BitString}
      → stream field rows ≡ ok s
      → All (λ r. (text : BitString) × (field r ≡ ok text)) rows
  stream-All [] h = tt
  stream-All (r ∷ rows) h =
      let (text, rest, p, q, e) = stream-cons r rows h in ((text, p), stream-All rows q)

  -- A loop over rows in three parts writes their texts one behind the other.
  pub stream_split :
      (front : List R) (r : R) (back : List R) {s : BitString}
      → stream field (front ++ (r ∷ back)) ≡ ok s
      → (x : BitString) × (text : BitString) × (y : BitString) × (stream field front ≡ ok x)
        × (field r ≡ ok text)
        × (stream field back ≡ ok y)
        × (s ≡ x ++ (text ++ y))
  stream_split [] r back h =
      let (text, rest, p, q, e) = stream-cons r back h in
      ([], text, rest, unfold stream in refl, p, q, e)
  stream_split (f ∷ front) r back h =
      let (first, rest, p, q, e) = stream-cons f (front ++ (r ∷ back)) h in
      let (x, text, y, px, pt, py, same) = stream_split front r back q in
      (
        first ++ x,
        text,
        y,
        joined first p px,
        pt,
        py,
        e ∙ ap (λ z. first ++ z) same ∙ sym (append_assoc first x (text ++ y)),
      )
    where
      joined :
          (first : BitString) {x : BitString}
          → field f ≡ ok first
          → stream field front ≡ ok x
          → stream field (f ∷ front) ≡ ok (first ++ x)
      joined first p q = unfold stream in (rw (p, q))
