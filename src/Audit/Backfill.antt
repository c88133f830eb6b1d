-- ===== src/Audit/Backfill.antt =====
-- backfillChain of internal/audit/sqlite/sqlite.go: the hashes of rows that were written before the
-- chain existed. It is one transaction, so a call that fails leaves the table as it was.
pub mod Rechained
use gatte.Base.{
  ℕ, Bool, true, false, ◌||◌, List, [], ◌∷◌, Text, if◌then◌else◌, Option, none, some, Result, ok,
  err, ◌>>=◌,
}
use gatte.Audit.Chain.{chain_hash, genesis_hash}
use gatte.Audit.Table.{Platform, StoredRow, Table, record_of}

pub record BackfillFaults : Type 0 where
  pub meta_fails : Bool
  pub begin_fails : Bool
  pub query_fails : Bool
  pub scan_fails : ℕ → Bool
  pub rows_fail : Bool
  pub head_fails : Bool
  pub update_fails : ℕ → Bool
  pub insert_fails : Bool
  pub commit_fails : Bool

pub data BackfillError : Type 0 where
  backfill_failed unreadable_timestamp : BackfillError

-- `hash = ''`.
abbrev pub is_unhashed : Text → Bool
is_unhashed [] = true
is_unhashed (x ∷ hash) = false

-- `SELECT hash ... WHERE hash != '' ORDER BY id DESC LIMIT 1`, genesis where there is none.
unfoldable pub tail_hash : List StoredRow → Text
tail_hash [] = genesis_hash
tail_hash (row ∷ older) = if is_unhashed row.hash then tail_hash older else row.hash

-- The rows with their hashes, the hash at which the chain ends, and the id of the last row hashed.
pub record Rechain : Type 0 where
  pub rows : List StoredRow
  pub prev : Text
  pub last : ℕ

abbrev pub kept : StoredRow → Rechain → Rechain
kept row c = record c { rows = row ∷ c.rows }

-- The first loop, over the rows without a hash: whether each can be read.
unfoldable pub read_unhashed :
    Platform → BackfillFaults → List StoredRow → Result {0} BackfillError Unit
read_unhashed p f [] = ok tt
read_unhashed p f (row ∷ older) = read_unhashed p f older >>= (λ done.
    if is_unhashed row.hash
    then if f.scan_fails row.id
      then err backfill_failed
      else elim (p.parse row.timestamp) [ err why ↦ err unreadable_timestamp | ok time ↦ ok tt ]
    else ok tt)

unfoldable pub rehashed : Platform → StoredRow → Rechain → Result BackfillError Rechain
unfolding chain_hash
rehashed p row c = elim (p.parse row.timestamp) [
  | err why ↦ err unreadable_timestamp
  | ok time ↦
      let h = chain_hash p.sha256 p.format c.prev (record_of row time) in
      ok (record {
        rows = record row { prev_hash = c.prev; hash = h } ∷ c.rows;
        prev = h;
        last = row.id;
      })
]

unfoldable pub rechain :
    Platform → BackfillFaults → Text → List StoredRow → Result BackfillError Rechain
unfolding rehashed
rechain p f prev [] = ok (record { rows = []; prev = prev; last = 0 })
rechain p f prev (row ∷ older) = rechain p f prev older >>= (λ c.
    if is_unhashed row.hash
    then if f.update_fails row.id then err backfill_failed else rehashed p row c
    else ok (kept row c))

abbrev pub rechained : Table → Result BackfillError Rechain → Table × Result {0} BackfillError Unit
rechained t (err e) = (t, err e)
rechained t (ok c) = (record t { rows = c.rows; boundary = some c.last }, ok tt)

abbrev pub chained_before : Option ℕ → Bool
chained_before none = false
chained_before (some b) = true

unfoldable pub backfill_chain :
    Platform → BackfillFaults → Table → Table × Result {0} BackfillError Unit
unfolding read_unhashed rechain tail_hash
backfill_chain p f t =
    if f.meta_fails
    then (t, err backfill_failed)
    else if chained_before t.boundary
    then (t, ok tt)
    else if f.begin_fails || f.query_fails
    then (t, err backfill_failed)
    else rechained t (
        read_unhashed p f t.rows >>= (λ u.
          if f.rows_fail || f.head_fails
          then err backfill_failed
          else rechain p f (tail_hash t.rows) t.rows
            >>= (λ c. if f.insert_fails || f.commit_fails then err backfill_failed else ok c)))
