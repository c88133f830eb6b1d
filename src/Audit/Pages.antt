-- ===== src/Audit/Pages.antt =====
-- ChainOrder, List, Page and HasAnalyst of internal/audit/sqlite/sqlite.go, over rows in the order of
-- their ids with the newest first. One Boolean says whether the transaction, the
-- count or the query fails; the rows of a page are read whole.
pub mod Found
use gatte.Base.{
  ℕ, suc, ◌-◌, Bool, true, false, not, ◌&&◌, ◌||◌, List, [], ◌∷◌, ◌++◌, Text, text_eq, leb, ltb,
  ◌==◌, if◌then◌else◌, Result, ok, err, ◌>>=◌, ℤ, pos, is_nonpos, pos_part, ℤ_eq, select, sort, any,
  length,
}
use gatte.Quota.{Time, is_zero_time}
use gatte.Audit.{Record}
use gatte.Audit.Table.{Platform, StoredRow, record_of}

pub data ReadError : Type 0 where
  read_failed unreadable_row : ReadError

unfoldable pub read_row : Platform → StoredRow → Result ReadError Record
read_row p row = elim (p.parse row.timestamp) [
  | err why ↦ err unreadable_row
  | ok time ↦ ok (record_of row time)
]

-- The records, oldest first.
unfoldable pub read_rows : Platform → List StoredRow → Result ReadError (List Record)
unfolding read_row
read_rows p [] = ok []
read_rows p (row ∷ older) =
    read_rows p older >>= (λ done. read_row p row >>= (λ rec. ok (done ++ rec ∷ [])))

unfoldable pub chain_order : Platform → Bool → List StoredRow → Result ReadError (List Record)
unfolding read_rows
chain_order p fails rows = if fails then err read_failed else read_rows p rows

-- `slices.SortStableFunc` by the instant.
unfoldable pub list_trail : Platform → Bool → List StoredRow → Result ReadError (List Record)
unfolding chain_order
list_trail p fails rows =
    chain_order p fails rows
    >>= (λ records. ok (sort (λ a b. leb a.timestamp.instant b.timestamp.instant) records))

unfoldable pub has_analyst : Bool → Text → List StoredRow → Result ReadError Bool
unfolding text_eq
has_analyst fails identity rows =
    if fails then err read_failed else ok (any (λ row. text_eq row.analyst_identity identity) rows)

pub record TrailQuery : Type 0 where
  pub before : ℤ
  pub since : Time
  pub until : Time
  pub subject : Text
  pub outcome : Text
  pub source : Text
  pub tool : Text
  pub server : Text
  pub limit : ℤ

pub record PositionedRecord : Type 0 where
  pub position : ℕ
  pub entry : Record

abbrev pub is_any : Text → Text → Bool
is_any [] column = true
is_any (x ∷ value) column = text_eq column (x ∷ value)

-- The bound on the position and the five filters.
unfoldable pub is_selected : TrailQuery → ℕ → StoredRow → Bool
unfolding text_eq
is_selected q n row =
    (is_nonpos q.before || ltb n (pos_part q.before))
    && is_any q.subject row.analyst_identity
    && is_any q.outcome row.outcome
    && is_any q.source row.source_address
    && is_any q.tool row.tool
    && is_any q.server row.target_upstream

unfoldable pub in_window : TrailQuery → Time → Bool
in_window q t =
    (is_zero_time q.since || leb q.since.instant t.instant)
    && (is_zero_time q.until || ltb t.instant q.until.instant)

-- What the loop of Page makes of one row.
pub data Turn : Type 0 where
  turn_fails turn_skips turn_full : Turn
  turn_takes : PositionedRecord → Turn

unfoldable pub turn_row : Platform → TrailQuery → ℕ → StoredRow → List PositionedRecord → Turn
unfolding in_window
turn_row p q n row out = elim (p.parse row.timestamp) [
  | err why ↦ turn_fails
  | ok time ↦
      if not (in_window q time)
      then turn_skips
      else if ℤ_eq (pos (length out)) q.limit
      then turn_full
      else turn_takes (record { position = n; entry = record_of row time })
]

abbrev pub Page : Type 0
Page = Result ReadError (List PositionedRecord × Bool)

-- The rest of the loop after a turn.
abbrev pub follow : Turn → (List PositionedRecord → Page) → List PositionedRecord → Page
follow turn_fails rest out = err unreadable_row
follow turn_skips rest out = rest out
follow turn_full rest out = ok (out, true)
follow (turn_takes x) rest out = rest (out ++ x ∷ [])

-- The loop over rows that the database has selected, each at the position that is its id.
unfoldable pub page_rows : Platform → TrailQuery → List StoredRow → List PositionedRecord → Page
page_rows p q [] out = ok (out, false)
page_rows p q (row ∷ older) out = follow (turn_row p q row.id row out) (page_rows p q older) out

abbrev pub turn_or_skip : Bool → Turn → Turn
turn_or_skip true t = t
turn_or_skip false t = turn_skips

-- The loop over all rows of a trail with a gap, which counts positions down from the number of rows.
unfoldable pub page_gap : Platform → TrailQuery → ℕ → List StoredRow → List PositionedRecord → Page
page_gap p q n [] out = ok (out, false)
page_gap p q n (row ∷ older) out =
    follow (turn_or_skip (is_selected q (n - 1) row) (turn_row p q (n - 1) row out))
      (page_gap p q (n - 1) older) out

-- `COALESCE(MAX(id), 0)` of rows with the highest id first.
abbrev pub max_id : List StoredRow → ℕ
max_id [] = 0
max_id (row ∷ older) = row.id

unfoldable pub page : Platform → Bool → TrailQuery → List StoredRow → Page
page p fails q rows =
    if fails
    then err read_failed
    else if length rows == max_id rows
    then page_rows p q (select (λ row. is_selected q row.id row) rows) []
    else page_gap p q (suc (length rows)) rows []
