-- ===== src/Tests/Blocks.antt =====
-- The table of blocks at concrete inputs. The layout writes a time as one character.
use gatte.Base.{
  ◌≡◌, refl, ℕ, true, false, List, [], ◌∷◌, Text, codes, Option, none, some, ok, arith, pos,
  text_le, text_eq, inr, trim_space, is_blank, is_trimmed, any_rune_from, decode_rune, leb,
}
use gatte.Quota.{Time}
use gatte.Access.Blocks.{
  Block, Layout, ExecFaults, blocked, block, validate_block, validate_subject, upsert, row_of,
  format_until, row_at, enforced, remove_expired, deleted, delete_where,
}
use gatte.Access.Blocks.Enforced.{IsLayout, IsInRange, holds_at}
use gatte.Access.Blocks.Switch.{BlockEvent, places, sweeps, table_after, switch_after, happen}
use gatte.Access.Blocks.Blocked.{IsTimely, blocked-switch_after}

abbrev at : ℕ → Time
at n = record { instant = n; offset = pos 0 }

abbrev read_back : Text → Option Time
read_back [] = none
read_back (n ∷ s) = some (at n)

abbrev layout : Layout
layout = record {
  format_character = λ r. false;
  format_at = λ t. t.instant ∷ [];
  parse_at = read_back;
  format_end = λ t. t.instant ∷ [];
  parse_end = read_back;
}

layout-order :
    (t u : Time)
    → IsInRange t
    → IsInRange u
    → text_le (t.instant ∷ []) (u.instant ∷ []) ≡ leb t.instant u.instant
unfolding text_le
layout-order t u r s = ground arith

layout-IsLayout : IsLayout layout
layout-IsLayout = record {
  some_text = λ t r e. absurd cc;
  back = λ t r. (at t.instant, refl, refl);
  order = layout-order;
}

abbrev works : ExecFaults
works = record { exec_fails = false; count_fails = false }

abbrev ana : Text
ana = codes "ana"

abbrev until_nine : Block
until_nine = record {
  subject = ana;
  reason = codes "lost laptop";
  by = codes "op";
  at = at 3;
  until = at 9;
}

-- Placed at 3 until 9, and swept at 5 in vain.
abbrev events : List BlockEvent
events =
    record { now = at 5; faults = works; act = sweeps ana (at 9) }
    ∷ record { now = at 3; faults = works; act = places until_nine }
    ∷ []

blocked_before_its_end : blocked layout false (at 8) ana (table_after layout events) ≡ ok true
unfolding blocked table_after happen block remove_expired deleted delete_where validate_block
    validate_subject upsert row_of format_until row_at enforced text_eq text_le trim_space is_blank
    is_trimmed any_rune_from decode_rune
blocked_before_its_end = refl

free_from_its_end : blocked layout false (at 9) ana (table_after layout events) ≡ ok false
unfolding blocked table_after happen block remove_expired deleted delete_where validate_block
    validate_subject upsert row_of format_until row_at enforced text_eq text_le trim_space is_blank
    is_trimmed any_rune_from decode_rune
free_from_its_end = refl

events-IsTimely : IsTimely events
events-IsTimely = (
  record { after_zero = omega arith; before_end = omega arith },
  inr (record { after_zero = omega arith; before_end = omega arith }),
  (omega arith, tt),
  (
    record { after_zero = omega arith; before_end = omega arith },
    inr (record { after_zero = omega arith; before_end = omega arith }),
    tt,
    tt,
  ),
)

blocked-switch_after_example :
    blocked layout false (at 8) ana (table_after layout events)
    ≡ ok (holds_at (switch_after layout events ana) 8)
blocked-switch_after_example =
    blocked-switch_after layout layout-IsLayout events ana (at 8) events-IsTimely (omega arith)
