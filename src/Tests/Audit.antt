-- ===== src/Tests/Audit.antt =====
-- The chain of audit rows at concrete inputs. The digest is the last 64 bytes of what it is fed, and a
-- time is written as one character.
use mathlib.Core.List.{reverse}
use gatte.Base.{
  ◌≡◌, ◌⊎◌, refl, ℕ, zero, suc, true, false, List, [], ◌∷◌, Text, codes, none, some, Result, ok,
  err, text_eq, length, pos, map, All, decode_rune, arith, trim_space,
}
use gatte.Quota.{Time}
use gatte.Visible.{escape, hidden, hidden_from, hides, escape_from, escaped_rune, hex_rune}
use gatte.Audit.{Record, validate, display_name, outcome_valid, valid_from, cut_at}
use gatte.Audit.Chain.{chain_hash, shown, IsSizedRecord}
use gatte.Audit.Chain.Covered.{Collision}
use gatte.Audit.Table.{
  Platform, StoredRow, Table, record_of, WriteFaults, VerifyFaults, ChainCheck, record_chained,
  append_row, verify_chain,
}
use gatte.Audit.Table.Linked.{
  IsLinked, IsAnswer, NeverFails, verify_chain-answers, verify_chain-IsAnswer,
}
use gatte.Audit.Table.Sealed.{content, HasSizedContent, verify_chain-sealed}
use gatte.Audit.Table.Written.{
  IsReadable, write_all, fresh, stored_records, is_stored, IsRecorded, write_all-IsRecorded,
}
use gatte.Audit.Backfill.{BackfillFaults, backfill_chain, rechain, rehashed, tail_hash}
use gatte.Audit.Backfill.Rechained.{backfill_chain-IsLinked, backfill_chain_kept}

abbrev pad : ℕ → Text → Text
pad zero s = []
pad (suc n) [] = 48 ∷ pad n []
pad (suc n) (x ∷ s) = x ∷ pad n s

length-pad : (n : ℕ) (s : Text) → length (pad n s) ≡ n
length-pad zero s = refl
length-pad (suc n) [] = omega (arith, length-pad n [])
length-pad (suc n) (x ∷ s) = omega (arith, length-pad n s)

abbrev pub at : ℕ → Time
at n = record { instant = n; offset = pos 0 }

abbrev read_back : Text → Result Text Time
read_back [] = err (codes "empty")
read_back (n ∷ s) = ok (at n)

abbrev pub go : Platform
go = record {
  hidden_table = λ r. false;
  sha256 = λ b. pad 64 (reverse b);
  format = λ t. t.instant ∷ [];
  parse = read_back;
}

go-digest : (b : Text) → length (go.sha256 b) ≡ 64
go-digest b = length-pad 64 (reverse b)

abbrev call : Record
call = record {
  analyst_identity = codes "ana";
  tool = codes "ti.ip";
  target_upstream = codes "ti";
  timestamp = at 5;
  outcome = codes "allowed";
  reason = [];
  source_address = codes "10.0.0.1";
  analyst_name = codes "Ana";
}

call-IsSizedRecord : IsSizedRecord (shown go.format call)
call-IsSizedRecord = record {
  identity_sized = omega arith;
  tool_sized = omega arith;
  upstream_sized = omega arith;
  timestamp_sized = omega arith;
  outcome_sized = omega arith;
  reason_sized = omega arith;
  address_sized = omega arith;
  name_sized = omega arith;
}

unnamed-IsSizedRecord : IsSizedRecord (shown go.format (record call { analyst_name = [] }))
unnamed-IsSizedRecord = record {
  identity_sized = omega arith;
  tool_sized = omega arith;
  upstream_sized = omega arith;
  timestamp_sized = omega arith;
  outcome_sized = omega arith;
  reason_sized = omega arith;
  address_sized = omega arith;
  name_sized = omega arith;
}

abbrev fine : WriteFaults
fine = record {
  begin_fails = false;
  head_fails = false;
  insert_fails = false;
  commit_fails = false;
}

abbrev full : WriteFaults
full = record { begin_fails = false; head_fails = false; insert_fails = true; commit_fails = false }

-- Two calls, of which the second finds the disk full, and a third.
abbrev writes : List (WriteFaults × Record)
writes = (fine, call) ∷ (full, call) ∷ (fine, record call { analyst_name = [] }) ∷ []

abbrev sound : VerifyFaults
sound = record {
  meta_fails = false;
  query_fails = false;
  scan_fails = λ n. false;
  rows_fail = false;
}

sound-NeverFails : NeverFails sound
sound-NeverFails = record { meta_read = refl; queried = refl; scans = λ n. refl; rows_read = refl }

abbrev trail : Table
unfolding write_all
trail = write_all go fresh writes

call-IsReadable : IsReadable go (at 5)
call-IsReadable = record { again = at 5; reads = refl; same_text = refl }

-- The verification answers, and what it answers is intact.
verified : (check : ChainCheck) × (verify_chain go sound (write_all go fresh writes) ≡ ok check)
verified = verify_chain-answers go sound (write_all go fresh writes) sound-NeverFails

write_all-IsRecorded_example :
    IsRecorded go (stored_records go writes) (write_all go fresh writes).rows verified.0
write_all-IsRecorded_example =
    write_all-IsRecorded go sound writes verified.0
      (call-IsReadable, (call-IsReadable, (call-IsReadable, tt))) verified.1

two_rows : length (stored_records go writes) ≡ 2
unfolding is_stored validate outcome_valid text_eq hidden hidden_from hides valid_from decode_rune
two_rows = refl

recorded : IsRecorded go (stored_records go writes) (write_all go fresh writes).rows verified.0
recorded =
    write_all-IsRecorded go sound writes verified.0
      (call-IsReadable, (call-IsReadable, (call-IsReadable, tt))) verified.1

rows-sized : All (HasSizedContent go) (write_all go fresh writes).rows
unfolding write_all record_chained append_row validate outcome_valid text_eq hidden hidden_from
    hides valid_from decode_rune
rows-sized = (call-IsSizedRecord, (unnamed-IsSizedRecord, tt))

-- The same trail kept in two places.
verify_chain-sealed_example :
    (map (content go) (write_all go fresh writes).rows
      ≡ map (content go) (write_all go fresh writes).rows)
    ⊎ Collision go.sha256
verify_chain-sealed_example =
    verify_chain-sealed go go-digest sound sound (write_all go fresh writes)
      (write_all go fresh writes) verified.0 verified.0 verified.1 verified.1 recorded.intact
      recorded.intact refl rows-sized rows-sized

verify_chain-IsAnswer_example : IsAnswer go (write_all go fresh writes).rows verified.0
verify_chain-IsAnswer_example =
    verify_chain-IsAnswer go sound (write_all go fresh writes) verified.0 verified.1

-- Rows of before the chain: one without a hash.
abbrev old_row : StoredRow
old_row = record {
  id = 1;
  analyst_identity = codes "ana";
  tool = codes "ti.ip";
  target_upstream = codes "ti";
  timestamp = 5 ∷ [];
  outcome = codes "allowed";
  reason = [];
  source_address = [];
  analyst_name = [];
  prev_hash = [];
  hash = [];
}

abbrev old_table : Table
old_table = record { rows = old_row ∷ []; last_id = 1; boundary = none }

abbrev calm : BackfillFaults
calm = record {
  meta_fails = false;
  begin_fails = false;
  query_fails = false;
  scan_fails = λ n. false;
  rows_fail = false;
  head_fails = false;
  update_fails = λ n. false;
  insert_fails = false;
  commit_fails = false;
}

abbrev hashed : Text
unfolding chain_hash
hashed = chain_hash go.sha256 go.format [] (record_of old_row (at 5))

abbrev new_table : Table
unfolding hashed
new_table = record { rows = record old_row { hash = hashed } ∷ []; last_id = 1; boundary = some 1 }

backfilled : backfill_chain go calm old_table ≡ (new_table, ok tt)
unfolding backfill_chain rechain rehashed tail_hash
backfilled = refl

backfill_chain-IsLinked_example :
    IsLinked go new_table.rows × (map (content go) new_table.rows ≡ map (content go) old_table.rows)
backfill_chain-IsLinked_example =
    backfill_chain-IsLinked go calm old_table new_table (old_row ∷ []) [] refl refl (refl, tt) tt tt
      backfilled

-- The record of the first backfill deleted, over rows that are all hashed.
abbrev hashed_table : Table
hashed_table = record {
  rows = record old_row { hash = codes "ab" } ∷ [];
  last_id = 1;
  boundary = none;
}

backfill_chain_kept_example : (backfill_chain go calm hashed_table).0.rows ≡ hashed_table.rows
backfill_chain_kept_example = backfill_chain_kept go calm hashed_table (refl, tt)

newline_shown : display_name (λ r. false) (codes "id") (codes " An\na ") ≡ codes "An\\u{000A}a"
unfolding display_name escape hidden hidden_from hides escape_from escaped_rune hex_rune decode_rune
    trim_space text_eq cut_at
newline_shown = refl
