-- ===== src/Audit/Table.antt =====
-- internal/audit/sqlite/sqlite.go: the table of audit rows. The rows stand with the newest first, so
-- that a walk in the order of their ids takes the older ones before. A database call that may fail is
-- a Boolean; a transaction that does not commit leaves the table as it was.
pub mod Linked
pub mod Sealed
pub mod Written
use gatte.Base.{
  ◌≡◌, ℕ, suc, ◌+◌, Bool, true, false, not, ◌&&◌, ◌||◌, List, [], ◌∷◌, ◌++◌, Text, text_eq, codes,
  leb, if◌then◌else◌, Option, none, some, Result, ok, err, ◌>>=◌, pos, sort, any, length,
}
use gatte.Quota.{Time}
use gatte.Audit.{Record, RecordError, validate}
use gatte.Audit.Chain.{chain_hash, genesis_hash, shown, Shown}

-- What the program takes from Go's library: the tables of unicode, SHA-256 in hexadecimal, and
-- RFC3339Nano both ways, where a text that is no time is answered with the text of the error.
pub record Platform : Type 0 where
  pub hidden_table : ℕ → Bool
  pub sha256 : Text → Text
  pub format : Time → Text
  pub parse : Text → Result Text Time

pub record StoredRow : Type 0 where
  pub id : ℕ
  pub analyst_identity : Text
  pub tool : Text
  pub target_upstream : Text
  pub timestamp : Text
  pub outcome : Text
  pub reason : Text
  pub source_address : Text
  pub analyst_name : Text
  pub prev_hash : Text
  pub hash : Text

-- The rows, the highest id ever given, and the boundary of the backfill once it ran.
pub record Table : Type 0 where
  pub rows : List StoredRow
  pub last_id : ℕ
  pub boundary : Option ℕ

abbrev pub record_of : StoredRow → Time → Record
record_of row t = record {
  analyst_identity = row.analyst_identity;
  tool = row.tool;
  target_upstream = row.target_upstream;
  timestamp = t;
  outcome = row.outcome;
  reason = row.reason;
  source_address = row.source_address;
  analyst_name = row.analyst_name;
}

pub record ChainLink : Type 0 where
  pub prev : Text
  pub hash : Text

pub data WriteError : Type 0 where
  invalid : List RecordError → WriteError
  write_failed : WriteError

-- The calls of one write that fail.
pub record WriteFaults : Type 0 where
  pub begin_fails : Bool
  pub head_fails : Bool
  pub insert_fails : Bool
  pub commit_fails : Bool

abbrev pub newest_hash : List StoredRow → Text
newest_hash [] = genesis_hash
newest_hash (row ∷ older) = row.hash

abbrev pub row_of : Platform → ℕ → Record → ChainLink → StoredRow
row_of p n r link = record {
  id = n;
  analyst_identity = r.analyst_identity;
  tool = r.tool;
  target_upstream = r.target_upstream;
  timestamp = p.format r.timestamp;
  outcome = r.outcome;
  reason = r.reason;
  source_address = r.source_address;
  analyst_name = r.analyst_name;
  prev_hash = link.prev;
  hash = link.hash;
}

unfoldable pub append_row : Platform → Table → Record → Table × Result WriteError ChainLink
unfolding chain_hash
append_row p t r =
    let prev = newest_hash t.rows in
    let link : ChainLink = record { prev = prev; hash = chain_hash p.sha256 p.format prev r } in
    (record t { rows = row_of p (suc t.last_id) r link ∷ t.rows; last_id = suc t.last_id }, ok link)

unfoldable pub record_chained :
    Platform → WriteFaults → Record → Table → Table × Result WriteError ChainLink
unfolding validate append_row
record_chained p f r t = elim (validate p.hidden_table r) [
  | e ∷ es ↦ (t, err (invalid (e ∷ es)))
  | [] ↦
      if f.begin_fails || f.head_fails || f.insert_fails || f.commit_fails
      then (t, err write_failed)
      else append_row p t r
]

pub record ChainBreak : Type 0 where
  pub position : ℕ
  pub broken : Record
  pub want : Text
  pub got : Text

pub record ChainCheck : Type 0 where
  pub count : ℕ
  pub head : Text
  pub first_break : Option ChainBreak
  pub retroactively_chained : ℕ

-- The calls of one verification that fail; a scan fails at a row.
pub record VerifyFaults : Type 0 where
  pub meta_fails : Bool
  pub query_fails : Bool
  pub scan_fails : ℕ → Bool
  pub rows_fail : Bool

pub data VerifyError : Type 0 where
  verify_failed : VerifyError

-- Where the loop of VerifyChain stands: behind a row with that stored hash, or past its return.
pub data Walk : Type 0 where
  going : Text → ChainCheck → Walk
  returned : Result VerifyError ChainCheck → Walk

abbrev or_first : Option ChainBreak → ChainBreak → ChainBreak
or_first none b = b
or_first (some first) b = first

abbrev pub zero_time : Time
zero_time = record { instant = 0; offset = pos 0 }

unfoldable pub verify_readable : Platform → ℕ → StoredRow → Time → Text → ChainCheck → ChainCheck
unfolding chain_hash text_eq
verify_readable p boundary row time prev check =
    let rec = record_of row time in
    let want = chain_hash p.sha256 p.format row.prev_hash rec in
    let broken : ChainBreak = record {
      position = suc check.count;
      broken = rec;
      want = chain_hash p.sha256 p.format prev rec;
      got = row.hash;
    } in
    record {
      count = suc check.count;
      head = check.head;
      first_break =
          if not (text_eq row.prev_hash prev) || not (text_eq row.hash want)
          then some (or_first check.first_break broken)
          else check.first_break;
      retroactively_chained =
          if leb row.id boundary
          then suc check.retroactively_chained
          else check.retroactively_chained;
    }

-- The outcome is read only behind the timestamp, so this record has none.
abbrev pub verify_unreadable : StoredRow → Text → ChainCheck → ChainCheck
verify_unreadable row why check = record {
  count = suc check.count;
  head = row.hash;
  first_break = some (
      or_first check.first_break (record {
        position = suc check.count;
        broken = record (record_of row zero_time) { outcome = [] };
        want = codes "unreadable: " ++ why;
        got = row.hash;
      }));
  retroactively_chained = check.retroactively_chained;
}

unfoldable pub verify_row : Platform → VerifyFaults → ℕ → StoredRow → Walk → Walk
unfolding verify_readable
verify_row p f boundary row (returned r) = returned r
verify_row p f boundary row (going prev check) =
    if f.scan_fails row.id then returned (err verify_failed) else elim (p.parse row.timestamp) [
      | err why ↦ returned (ok (verify_unreadable row why check))
      | ok time ↦ going row.hash (verify_readable p boundary row time prev check)
    ]

unfoldable pub verify_rows : Platform → VerifyFaults → ℕ → List StoredRow → Walk
unfolding verify_row
verify_rows p f boundary [] =
    going genesis_hash
      (record { count = 0; head = genesis_hash; first_break = none; retroactively_chained = 0 })
verify_rows p f boundary (row ∷ older) =
    verify_row p f boundary row (verify_rows p f boundary older)

abbrev pub boundary_of : Option ℕ → ℕ
boundary_of none = 0
boundary_of (some b) = b

abbrev pub after_walk : Bool → Walk → Result VerifyError ChainCheck
after_walk rows_fail (returned r) = r
after_walk rows_fail (going prev check) =
    if rows_fail then err verify_failed else ok (record check { head = prev })

unfoldable pub verify_chain : Platform → VerifyFaults → Table → Result VerifyError ChainCheck
unfolding verify_rows
verify_chain p f t =
    if f.meta_fails || f.query_fails
    then err verify_failed
    else after_walk f.rows_fail (verify_rows p f (boundary_of t.boundary) t.rows)
