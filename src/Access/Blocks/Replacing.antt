-- ===== src/Access/Blocks/Replacing.antt =====
-- BlockReplacing, Blocks and Expired of internal/access/sqlite/sqlite.go, which read rows back.
use gatte.Base.{
  ◌≡◌, Bool, true, false, not, ◌||◌, List, [], ◌∷◌, text_eq, text_le, leb, if◌then◌else◌, Option,
  none, some, Result, ok, err, ◌>>=◌, pos, select, sort, inl, inr, ◌⊎◌, arith, Bool-cases,
  List-cases, Result-cases,
}
use gatte.Quota.{Time}
use gatte.Access.Blocks.{
  Block, Layout, BlockRow, BlockError, invalid_block, block_failed, unreadable_time, is_endless,
  row_at, row_of, upsert, format_until, validate_block, active_at, block,
}

-- A row as Go reads it back; a row without a readable time or end is an error.
abbrev end_of_row : Layout → BlockRow → Option Time
end_of_row y row =
    if is_endless row.blocked_until
    then some (record { instant = 0; offset = pos 0 })
    else y.parse_end row.blocked_until

unfoldable pub block_of : Layout → BlockRow → Result BlockError Block
block_of y row = elim (y.parse_at row.blocked_at) [
  | none ↦ err unreadable_time
  | some at ↦ elim (end_of_row y row) [
    | none ↦ err unreadable_time
    | some until ↦ ok (record {
      subject = row.subject;
      reason = row.reason;
      by = row.blocked_by;
      at = at;
      until = until;
    })
  ]
]

-- What fails of the transaction of BlockReplacing.
pub record ReplaceFaults : Type 0 where
  pub begin_fails : Bool
  pub read_fails : Bool
  pub exec_fails : Bool
  pub commit_fails : Bool

unfoldable pub replaced_by : Layout → Option BlockRow → Result BlockError (Option Block)
unfolding block_of
replaced_by y none = ok none
replaced_by y (some row) = block_of y row >>= (λ old. ok (some old))

unfoldable pub block_replacing :
    Layout
    → ReplaceFaults
    → Time
    → Block
    → List BlockRow
    → List BlockRow × Result BlockError (Bool × Option Block)
unfolding validate_block format_until upsert row_of row_at replaced_by
block_replacing y f now b rows = elim (validate_block y.format_character b) [
  | rule ∷ rules ↦ (rows, err (invalid_block (rule ∷ rules)))
  | [] ↦
      if f.begin_fails || f.read_fails
      then (rows, err block_failed)
      else elim (replaced_by y (row_at b.subject rows)) [
        | err e ↦ (rows, err e)
        | ok old ↦
            let written = upsert (format_until y now) (row_of y b) rows in
            if f.exec_fails || f.commit_fails
            then (rows, err block_failed)
            else if written.1
            then (written.0, ok (true, old))
            else (written.0, ok (false, none))
      ]
]

-- `ORDER BY blocked_at, subject`, which compares texts.
unfoldable before : BlockRow → BlockRow → Bool
unfolding text_eq text_le
before a b =
    if text_eq a.blocked_at b.blocked_at
    then text_le a.subject b.subject
    else text_le a.blocked_at b.blocked_at

unfoldable blocks_of : Layout → List BlockRow → Result BlockError (List Block)
unfolding block_of
blocks_of y [] = ok []
blocks_of y (row ∷ rows) = block_of y row >>= (λ b. blocks_of y rows >>= (λ bs. ok (b ∷ bs)))

unfoldable pub blocks : Layout → Bool → List BlockRow → Result BlockError (List Block)
unfolding blocks_of before
blocks y read_fails rows = if read_fails then err block_failed else blocks_of y (sort before rows)

unfoldable pub expired : Layout → Bool → Time → List BlockRow → Result BlockError (List Block)
unfolding blocks active_at
expired y read_fails now rows = blocks y read_fails rows >>= (λ all.
    ok
      (sort (λ a b. leb a.until.instant b.until.instant) (select (λ b. not (active_at b now)) all)))

-- A replacement that answers does to the table what Block does, places exactly when Block does, and
-- names a replaced block only where it placed one.
pub block_replacing-block :
    (y : Layout) (f : ReplaceFaults) (now : Time) (b : Block) (rows rows' : List BlockRow)
    (placed : Bool) (old : Option Block)
    → block_replacing y f now b rows ≡ (rows', ok (placed, old))
    → (block y (record { exec_fails = false; count_fails = false }) now b rows ≡ (rows', ok placed))
      × ((placed ≡ true) ⊎ (old ≡ none))
unfolding block_replacing block
block_replacing-block y f now b rows rows' placed old e =
    elim (List-cases (validate_block y.format_character b)) [
      | inr (rule, rules, broken) ↦ absurd (ground (arith, broken, e))
      | inl valid ↦
          let written = upsert (format_until y now) (row_of y b) rows in
          elim (Result-cases (replaced_by y (row_at b.subject rows))) [
            | inl (x, unreadable) ↦ absurd (ground (arith, valid, unreadable, e))
            | inr (before, read) ↦ elim (Bool-cases written.1) [
              | inl wrote ↦ (
                ground (arith, valid, read, wrote, e),
                inl (ground (arith, valid, read, wrote, e)),
              )
              | inr kept ↦
                  (ground (arith, valid, read, kept, e), inr (ground (arith, valid, read, kept, e)))
            ]
          ]
    ]
