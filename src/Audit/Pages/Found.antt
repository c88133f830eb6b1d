-- ===== src/Audit/Pages/Found.antt =====
-- A page is the newest of the records that a query finds, at their positions in the chain.
use gatte.Base.{
  ◌≡◌, refl, sym, ap, ◌∙◌, subst, ℕ, zero, suc, ◌+◌, ◌-◌, ◌≤◌, ◌<◌, Bool, true, false, ◌&&◌, List,
  [], ◌∷◌, ◌++◌, ltb, ◌==◌, ==_iff, if◌then◌else◌, ok, pos, ℤ_eq, select, take, length,
  length-append, inl, inr, All, arith, Bool-cases,
}
use mathlib.Core.List.{append_assoc, append-nil}
use gatte.Quota.{Time}
use gatte.Audit.Table.{Platform, StoredRow, record_of}
use gatte.Audit.Pages.{
  Page, follow, TrailQuery, PositionedRecord, is_selected, in_window, turn_row, page_rows, page_gap,
  page, max_id, Turn, turn_fails, turn_skips, turn_full, turn_takes,
}

-- The ids fall strictly along the rows, and none is 0.
abbrev pub IsNumbered : List StoredRow → Type 0
IsNumbered [] = Unit
IsNumbered (row ∷ older) = (max_id older < row.id) × IsNumbered older

length-max_id : (rows : List StoredRow) → IsNumbered rows → length rows ≤ max_id rows
length-max_id [] h = omega arith
length-max_id (row ∷ older) h = omega (arith, length-max_id older h.1, h.0)

follow_same :
    (t : Turn) (f g : List PositionedRecord → Page)
    → ((out : List PositionedRecord) → f out ≡ g out)
    → (out : List PositionedRecord) → follow t f out ≡ follow t g out
follow_same turn_fails f g h out = refl
follow_same turn_skips f g h out = h out
follow_same turn_full f g h out = refl
follow_same (turn_takes x) f g h out = h (out ++ x ∷ [])

module _ (p : Platform) (q : TrailQuery) where
  -- Without a gap the ids are the positions.
  rows-gap :
      (rows : List StoredRow)
      → IsNumbered rows
      → length rows ≡ max_id rows
      → (out : List PositionedRecord)
      → page_rows p q (select (λ row. is_selected q row.id row) rows) out
        ≡ page_gap p q (suc (length rows)) rows out
  unfolding page_rows page_gap
  rows-gap [] h e out = refl
  rows-gap (row ∷ older) h e out =
      let rest : (o : List PositionedRecord)
          → page_rows p q (select (λ row. is_selected q row.id row) older) o
            ≡ page_gap p q row.id older o =
        subst
          (λ n.
            (o : List PositionedRecord)
            → page_rows p q (select (λ row. is_selected q row.id row) older) o
              ≡ page_gap p q n older o)
          e (rows-gap older h.1 (omega (arith, length-max_id older h.1, h.0, e))) in
      let less : suc row.id - 1 ≡ row.id = omega arith in
      let t = turn_row p q row.id row out in
      elim (Bool-cases (is_selected q row.id row)) [
        | inr dropped ↦ rw (e, less, dropped) (rest out)
        | inl selected ↦ rw (e, less, selected) (follow_same t _ _ rest out)
      ]

page_same :
    {a b : List PositionedRecord} {x y : Bool}
    → a ≡ b
    → x ≡ y
    → ◌≡◌ {A = Page} (ok (a, x)) (ok (b, y))
page_same e f = rw (e, f) refl

-- The records that a query finds, the newest first, when a row was written at the time `times` gives:
-- a row's position is the number of rows up to it.
abbrev pub found : TrailQuery → (StoredRow → Time) → List StoredRow → List PositionedRecord
found q times [] = []
found q times (row ∷ older) =
    let n = suc (length older) in
    if is_selected q n row && in_window q (times row)
    then record { position = n; entry = record_of row (times row) } ∷ found q times older
    else found q times older

abbrev pub IsWritten : Platform → (StoredRow → Time) → StoredRow → Type 0
IsWritten p times row = p.parse row.timestamp ≡ ok (times row)

module _ (p : Platform) (q : TrailQuery) (times : StoredRow → Time) where
  turn_outside :
      (n : ℕ) (row : StoredRow) (out : List PositionedRecord)
      → p.parse row.timestamp ≡ ok (times row)
      → in_window q (times row) ≡ false
      → turn_row p q n row out ≡ turn_skips
  unfolding turn_row
  turn_outside n row out reads w = rw (turn_row, reads, w) refl

  turn_beyond :
      (n : ℕ) (row : StoredRow) (out : List PositionedRecord)
      → p.parse row.timestamp ≡ ok (times row)
      → in_window q (times row) ≡ true
      → ℤ_eq (pos (length out)) q.limit ≡ true
      → turn_row p q n row out ≡ turn_full
  unfolding turn_row
  turn_beyond n row out reads w full = rw (turn_row, reads, w, full) refl

  turn_within :
      (n : ℕ) (row : StoredRow) (out : List PositionedRecord)
      → p.parse row.timestamp ≡ ok (times row)
      → in_window q (times row) ≡ true
      → ℤ_eq (pos (length out)) q.limit ≡ false
      → turn_row p q n row out
        ≡ turn_takes (record { position = n; entry = record_of row (times row) })
  unfolding turn_row
  turn_within n row out reads w room = rw (turn_row, reads, w, room) refl

  turn-found :
      (n : ℕ) (row : StoredRow)
      → p.parse row.timestamp ≡ ok (times row)
      → in_window q (times row) ≡ true
      → (rest : List PositionedRecord → Page) (older : List PositionedRecord)
      → ((out : List PositionedRecord) (m : ℕ)
          → q.limit ≡ pos (length out + m)
          → rest out ≡ ok (out ++ take m older, ltb m (length older)))
      → (out : List PositionedRecord) (m : ℕ) → q.limit ≡ pos (length out + m)
      → follow (turn_row p q n row out) rest out
        ≡ ok (
          out ++ take m (record { position = n; entry = record_of row (times row) } ∷ older),
          ltb m (suc (length older)),
        )
  turn-found n row reads w rest older h out zero e =
      let full : ℤ_eq (pos (length out)) q.limit ≡ true = rw e (ground arith) in
      rw (turn_beyond n row out reads w full) (page_same (sym (append-nil out)) (ground arith))
  turn-found n row reads w rest older h out (suc m) e =
      let room : ℤ_eq (pos (length out)) q.limit ≡ false = rw e (ground arith) in
      let x : PositionedRecord = record { position = n; entry = record_of row (times row) } in
      rw (turn_within n row out reads w room) (
        h (out ++ x ∷ []) m (rw e (ap pos (rw (length-append out (x ∷ [])) (omega arith))))
        ∙ page_same (append_assoc out (x ∷ []) (take m older)) (ground arith))

  gap-found :
      (rows : List StoredRow)
      → All (IsWritten p times) rows
      → (out : List PositionedRecord) (m : ℕ) → q.limit ≡ pos (length out + m)
      → page_gap p q (suc (length rows)) rows out
        ≡ ok (out ++ take m (found q times rows), ltb m (length (found q times rows)))
  unfolding page_gap
  gap-found [] written out zero e = rw (append-nil out) refl
  gap-found [] written out (suc m) e = rw (append-nil out) (ap (λ b. ok (out, b)) (ground arith))
  gap-found (row ∷ older) written out m e =
      let n = suc (length older) in
      let less : suc n - 1 ≡ n = omega arith in
      elim (Bool-cases (is_selected q n row)) [
        | inr dropped ↦ rw (less, dropped) (gap-found older written.1 out m e)
        | inl selected ↦ elim (Bool-cases (in_window q (times row))) [
          | inr outside ↦
              rw (less, selected, turn_outside n row out written.0 outside, outside)
                (gap-found older written.1 out m e)
          | inl inside ↦
              rw (less, selected, inside)
                (turn-found n row written.0 inside (page_gap p q n older) (found q times older)
                  (gap-found older written.1) out m e)
        ]
      ]

-- A page of at most `n` records holds the `n` newest that the query finds, each at its position, and says
-- whether it found more, with or without a gap in the ids, for rows in the order of their ids with
-- readable timestamps when no read fails.
pub page-found :
    (p : Platform) (q : TrailQuery) (times : StoredRow → Time) (rows : List StoredRow) (n : ℕ)
    → IsNumbered rows
    → All (IsWritten p times) rows
    → q.limit ≡ pos n
    → page p false q rows ≡ ok (take n (found q times rows), ltb n (length (found q times rows)))
unfolding page
page-found p q times rows n numbered written e =
    let found_gap = gap-found p q times rows written [] n (e ∙ ap pos (omega arith)) in
    elim (Bool-cases (length rows == max_id rows)) [
      | inl dense ↦
          rw dense (
            rows-gap p q rows numbered ((==_iff (length rows) (max_id rows)).0 dense) []
            ∙ found_gap)
      | inr gap ↦ rw gap found_gap
    ]
