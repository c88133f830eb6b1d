-- ===== src/Access/Blocks.antt =====
-- internal/access/block.go and the table of internal/access/sqlite/sqlite.go: who is blocked. The times
-- in the table are texts; `Layout` stands for `time.Time.Format` and `time.Parse` with the two layouts,
-- and for the unicode table Cf. A database call that may fail is a Boolean.
pub mod Rows
pub mod Replacing
pub mod Enforced
pub mod Switch
pub mod Statements
pub mod Blocked
use gatte.Base.{
  ◌≡◌, ℕ, Bool, true, false, not, ◌&&◌, ◌||◌, List, [], ◌∷◌, ◌++◌, Text, text_eq, text_le, is_blank,
  is_trimmed, length, ltb, leb, if◌then◌else◌, when, any_rune_from, is_control, Option, none, some,
  Result, ok, err, ◌>>=◌, pos, select, sort,
}
use gatte.Quota.{Time, is_zero_time}

pub record Block : Type 0 where
  pub subject : Text
  pub reason : Text
  pub by : Text
  pub at : Time
  pub until : Time

unfoldable pub active_at : Block → Time → Bool
active_at b t = is_zero_time b.until || ltb t.instant b.until.instant

pub record Layout : Type 0 where
  pub format_character : ℕ → Bool
  pub format_at : Time → Text
  pub parse_at : Text → Option Time
  pub format_end : Time → Text
  pub parse_end : Text → Option Time

pub data BlockRule : Type 0 where
  subject_empty subject_untrimmed subject_too_long subject_control subject_invisible : BlockRule
  reason_too_long reason_control by_blank at_zero end_not_after : BlockRule

abbrev pub max_block_text : ℕ
max_block_text = 256

unfoldable pub validate_subject : (ℕ → Bool) → Text → Option BlockRule
unfolding text_eq is_trimmed any_rune_from
validate_subject invisible s =
    if text_eq s []
    then some subject_empty
    else if not (is_trimmed s)
    then some subject_untrimmed
    else if ltb max_block_text (length s)
    then some subject_too_long
    else if any_rune_from is_control 0 s
    then some subject_control
    else if any_rune_from invisible 0 s
    then some subject_invisible
    else none

abbrev pub listed : Option BlockRule → List BlockRule
listed none = []
listed (some rule) = rule ∷ []

-- The rules that a block breaks.
unfoldable pub validate_block : (ℕ → Bool) → Block → List BlockRule
unfolding validate_subject any_rune_from is_blank
validate_block invisible b =
    listed (validate_subject invisible b.subject)
    ++ (when (ltb max_block_text (length b.reason)) reason_too_long
        ++ (when (any_rune_from is_control 0 b.reason) reason_control
            ++ (when (is_blank b.by) by_blank
                ++ (when (is_zero_time b.at) at_zero
                    ++ when (not (is_zero_time b.until) && leb b.until.instant b.at.instant)
                        end_not_after))))

pub record BlockRow : Type 0 where
  pub subject : Text
  pub reason : Text
  pub blocked_by : Text
  pub blocked_at : Text
  pub blocked_until : Text

pub data BlockError : Type 0 where
  invalid_block : List BlockRule → BlockError
  blocklist_unavailable block_failed unreadable_time end_missing : BlockError

-- What fails of one statement: the statement, or the count of the rows that it changed.
pub record ExecFaults : Type 0 where
  pub exec_fails : Bool
  pub count_fails : Bool

unfoldable pub format_until : Layout → Time → Text
format_until y t = if is_zero_time t then [] else y.format_end t

abbrev pub is_endless : Text → Bool
is_endless [] = true
is_endless (x ∷ until) = false

unfoldable pub row_at : Text → List BlockRow → Option BlockRow
row_at s [] = none
row_at s (row ∷ rows) = if text_eq row.subject s then some row else row_at s rows

-- An end that does not parse keeps the subject blocked.
unfoldable pub enforced : Layout → Time → Option BlockRow → Bool
enforced y now none = false
enforced y now (some row) =
    if is_endless row.blocked_until then true else elim (y.parse_end row.blocked_until) [
      | none ↦ true
      | some end ↦ ltb now.instant end.instant
    ]

unfoldable pub blocked : Layout → Bool → Time → Text → List BlockRow → Result BlockError Bool
unfolding row_at enforced
blocked y read_fails now s rows =
    if read_fails then err blocklist_unavailable else ok (enforced y now (row_at s rows))

unfoldable pub row_of : Layout → Block → BlockRow
unfolding format_until
row_of y b = record {
  subject = b.subject;
  reason = b.reason;
  blocked_by = b.by;
  blocked_at = y.format_at b.at;
  blocked_until = format_until y b.until;
}

-- The condition of the update: `blocked_until <> '' AND blocked_until <= now`.
abbrev pub has_ended : Text → BlockRow → Bool
has_ended now row = not (is_endless row.blocked_until) && text_le row.blocked_until now

-- `INSERT ... ON CONFLICT (subject) DO UPDATE ... WHERE`: the rows, and whether one was written.
unfoldable pub upsert : Text → BlockRow → List BlockRow → List BlockRow × Bool
upsert now new [] = (new ∷ [], true)
upsert now new (row ∷ rows) =
    let rest = upsert now new rows in
    if text_eq row.subject new.subject
    then (if has_ended now row then (new ∷ rows, true) else (row ∷ rows, false))
    else (row ∷ rest.0, rest.1)

unfoldable pub block :
    Layout → ExecFaults → Time → Block → List BlockRow → List BlockRow × Result BlockError Bool
unfolding validate_block format_until upsert row_of
block y f now b rows = elim (validate_block y.format_character b) [
  | rule ∷ rules ↦ (rows, err (invalid_block (rule ∷ rules)))
  | [] ↦
      let written = upsert (format_until y now) (row_of y b) rows in
      if f.exec_fails
      then (rows, err block_failed)
      else if f.count_fails
      then (written.0, err block_failed)
      else (written.0, ok written.1)
]

-- `DELETE ... WHERE`: the rows that are left, and whether one was deleted.
unfoldable pub delete_where : (BlockRow → Bool) → List BlockRow → List BlockRow × Bool
delete_where doomed [] = ([], false)
delete_where doomed (row ∷ rows) =
    let rest = delete_where doomed rows in
    if doomed row then (rest.0, true) else (row ∷ rest.0, rest.1)

unfoldable pub deleted :
    ExecFaults → (BlockRow → Bool) → List BlockRow → List BlockRow × Result BlockError Bool
unfolding delete_where
deleted f doomed rows =
    let left = delete_where doomed rows in
    if f.exec_fails
    then (rows, err block_failed)
    else if f.count_fails
    then (left.0, err block_failed)
    else (left.0, ok left.1)

unfoldable pub unblock : ExecFaults → Text → List BlockRow → List BlockRow × Result BlockError Bool
unfolding deleted text_eq
unblock f s rows = deleted f (λ row. text_eq row.subject s) rows

unfoldable pub remove_expired :
    Layout
    → ExecFaults
    → Time
    → Text
    → Time
    → List BlockRow
    → List BlockRow × Result BlockError Bool
unfolding deleted text_eq text_le format_until
remove_expired y f now s until rows =
    if is_zero_time until
    then (rows, err end_missing)
    else deleted f
        (λ row.
          text_eq row.subject s
          && text_eq row.blocked_until (format_until y until)
          && text_le row.blocked_until (format_until y now))
        rows
