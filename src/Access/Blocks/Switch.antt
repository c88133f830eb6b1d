-- ===== src/Access/Blocks/Switch.antt =====
-- Who is blocked after a history of blocks placed, lifted and swept away, the latest event first.
use gatte.Base.{
  ◌≡◌, ℕ, Bool, true, false, not, ◌&&◌, List, [], ◌∷◌, Text, text_eq, if◌then◌else◌, All, ◌≤◌,
}
use gatte.Quota.{Time}
use gatte.Access.Blocks.{
  Block, Layout, BlockRow, ExecFaults, row_at, enforced, block, unblock, remove_expired,
  validate_block,
}
use gatte.Access.Blocks.Rows.{IsKeyed}
use gatte.Access.Blocks.Enforced.{IsEnd, End, free, holds_at, end_of}

pub data BlockAct : Type 0 where
  places : Block → BlockAct
  lifts : Text → BlockAct
  sweeps : Text → Time → BlockAct

pub record BlockEvent : Type 0 where
  pub now : Time
  pub faults : ExecFaults
  pub act : BlockAct

unfoldable pub happen : Layout → Time → ExecFaults → BlockAct → List BlockRow → List BlockRow
unfolding block unblock remove_expired
happen y now f (places b) rows = (block y f now b rows).0
happen y now f (lifts s) rows = (unblock f s rows).0
happen y now f (sweeps s end) rows = (remove_expired y f now s end rows).0

unfoldable pub table_after : Layout → List BlockEvent → List BlockRow
unfolding happen
table_after y [] = []
table_after y (ev ∷ earlier) = happen y ev.now ev.faults ev.act (table_after y earlier)

abbrev pub is_nil {ℓ} : {A : Type ℓ} → List A → Bool
is_nil [] = true
is_nil (x ∷ xs) = false

-- The switch of one subject, without a table: a block that is valid takes hold where none is in
-- force, a lift sets the subject free, a sweep does nothing, and neither does a statement that fails.
unfoldable pub turn : Layout → Time → BlockAct → (Text → End) → Text → End
unfolding validate_block text_eq
turn y now (places b) switch s =
    if is_nil (validate_block y.format_character b)
      && (not (holds_at (switch b.subject) now.instant) && text_eq b.subject s)
    then end_of b.until
    else switch s
turn y now (lifts q) switch s = if text_eq q s then free else switch s
turn y now (sweeps q end) switch s = switch s

unfoldable pub switch_after : Layout → List BlockEvent → Text → End
unfolding turn
switch_after y [] s = free
switch_after y (ev ∷ earlier) s =
    let turned = turn y ev.now ev.act (switch_after y earlier) s in
    let left = switch_after y earlier s in if ev.faults.exec_fails then left else turned

-- The table stands for the switch from an instant on.
pub record StandsFor (y : Layout) (now : ℕ) (rows : List BlockRow) (switch : Text → End)
    : Type 0 where
  pub keyed : IsKeyed rows
  pub ends : All (IsEnd y) rows
  pub agrees :
      (s : Text) (t : Time)
      → now ≤ t.instant
      → enforced y t (row_at s rows) ≡ holds_at (switch s) t.instant
