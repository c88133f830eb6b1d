-- ===== src/Audit.antt =====
-- internal/audit/audit.go: the record of one call, its validation, and the bytes that its hash in the
-- chain covers. `table` answers for package unicode.
pub mod Chain
pub mod Table
pub mod Backfill
pub mod Pages
use gatte.Base.{
  decode_rune, Option, none, some, ℕ, suc, zero, ◌-◌, Bool, true, false, ◌&&◌, ◌||◌, not, List, [],
  ◌∷◌, ◌++◌, take, Text, text_eq, codes, trim_space, length, leb, ltb, ◌==◌, if◌then◌else◌, when,
}
use gatte.Visible.{escape, hidden}
use gatte.Quota.{Time, is_zero_time}

pub record Record : Type 0 where
  pub analyst_identity : Text
  pub tool : Text
  pub target_upstream : Text
  pub timestamp : Time
  pub outcome : Text
  pub reason : Text
  pub source_address : Text
  pub analyst_name : Text

abbrev pub max_analyst_name_bytes : ℕ
max_analyst_name_bytes = 256

-- `utf8.RuneStart`, and the byte at an index below the length.
abbrev rune_start : ℕ → Bool
rune_start b = ltb b 0x80 || leb 0xc0 b

abbrev byte_at : ℕ → Text → ℕ
byte_at n [] = 0
byte_at zero (x ∷ s) = x
byte_at (suc n) (x ∷ s) = byte_at n s

-- The loop of DisplayName: from an index back to a byte that begins a code point.
unfoldable pub cut_at : ℕ → Text → ℕ
cut_at zero name = 0
cut_at (suc c) name = if rune_start (byte_at (suc c) name) then suc c else cut_at c name

abbrev ellipsis : Text
ellipsis = 0xe2 ∷ 0x80 ∷ 0xa6 ∷ []

unfoldable pub display_name : (ℕ → Bool) → Text → Text → Text
unfolding trim_space text_eq escape cut_at
display_name table subject name =
    let trimmed = trim_space name in
    let shown = escape table trimmed in
    if text_eq trimmed [] || text_eq trimmed subject
    then []
    else if leb (length shown) max_analyst_name_bytes
    then shown
    else take (cut_at (max_analyst_name_bytes - length ellipsis) shown) shown ++ ellipsis

abbrev pub outcome_allowed : Text
outcome_allowed = codes "allowed"

abbrev pub outcome_denied : Text
outcome_denied = codes "denied"

abbrev pub outcome_failed : Text
outcome_failed = codes "failed"

unfoldable pub outcome_valid : Text → Bool
unfolding text_eq
outcome_valid o = text_eq o outcome_allowed || text_eq o outcome_denied || text_eq o outcome_failed

pub data RecordError : Type 0 where
  identity_empty tool_empty upstream_empty timestamp_zero outcome_unknown : RecordError
  name_too_long name_hidden : RecordError

-- `utf8.ValidString`, with the bytes of a code point still to pass over.
unfoldable pub valid_from : ℕ → Text → Bool
unfolding decode_rune
valid_from k [] = true
valid_from (suc k) (x ∷ s) = valid_from k s
valid_from zero (x ∷ s) = elim (decode_rune (x ∷ s)) [
  | none ↦ false
  | some (r, n) ↦ valid_from (n - 1) s
]

-- The rules that a record breaks.
unfoldable pub validate : (ℕ → Bool) → Record → List RecordError
unfolding text_eq outcome_valid hidden valid_from
validate table r =
    when (text_eq r.analyst_identity []) identity_empty
    ++ (when (text_eq r.tool []) tool_empty
        ++ (when (text_eq r.target_upstream []) upstream_empty
            ++ (when (is_zero_time r.timestamp) timestamp_zero
                ++ (when (not (outcome_valid r.outcome)) outcome_unknown
                    ++ (when (ltb max_analyst_name_bytes (length r.analyst_name)) name_too_long
                        ++ when
                            (not (valid_from 0 r.analyst_name)
                              || ltb 0 (hidden table r.analyst_name))
                            name_hidden)))))
