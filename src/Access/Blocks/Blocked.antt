-- ===== src/Access/Blocks/Blocked.antt =====
-- A read of the table finds a subject blocked exactly if the switch of that subject is on.
use gatte.Base.{
  ◌≡◌, refl, sym, ap, ◌∙◌, subst, ℕ, Bool, true, false, ◌&&◌, List, [], ◌∷◌, Text, text_eq,
  text_eq→eq, text_le, if◌then◌else◌, if_true, if_false, some, Result, ok, inl, inr, All, arith,
  Bool-cases, List-cases, ◌≤◌,
}
use gatte.Quota.{Time, is_zero_time}
use gatte.Access.Blocks.{
  Block, Layout, BlockRow, BlockError, ExecFaults, format_until, row_at, enforced, blocked, row_of,
  upsert, block, delete_where, deleted, unblock, remove_expired, validate_block,
}
use gatte.Access.Blocks.Enforced.{
  IsInRange, IsLayout, IsEnd, IsEndTime, End, holds_at, has_ended-enforced, written_endless,
  end_text,
}
use gatte.Access.Blocks.Switch.{
  BlockAct, places, lifts, sweeps, BlockEvent, happen, table_after, turn, switch_after, StandsFor,
  is_nil,
}
use gatte.Access.Blocks.Statements.{upsert-StandsFor, delete-StandsFor, lift-StandsFor}

-- What the events of a history need: a clock and ends in the range of the layout.
abbrev pub HasEndTime : BlockAct → Type 0
HasEndTime (places b) = IsEndTime b.until
HasEndTime (lifts s) = Unit
HasEndTime (sweeps s end) = IsEndTime end

-- The clock never runs back.
abbrev pub IsTimely : List BlockEvent → Type 0
IsTimely [] = Unit
IsTimely (ev ∷ earlier) =
    IsInRange ev.now
    × HasEndTime ev.act
    × All (λ e. e.now.instant ≤ ev.now.instant) earlier
    × IsTimely earlier

StandsFor-same :
    (y : Layout) (now : ℕ) (rows rows' : List BlockRow) (switch switch' : Text → End)
    → rows ≡ rows'
    → ((s : Text) → switch s ≡ switch' s)
    → StandsFor y now rows switch
    → StandsFor y now rows' switch'
StandsFor-same y now rows rows' switch switch' e f h =
    let moved = subst (λ r. StandsFor y now r switch) e h in
    record {
      keyed = moved.keyed;
      ends = moved.ends;
      agrees = λ s t later. moved.agrees s t later ∙ ap (λ w. holds_at w t.instant) (f s);
    }

deleted_rows :
    (f : ExecFaults) (doomed : BlockRow → Bool) (rows : List BlockRow)
    → (deleted f doomed rows).0 ≡ (if f.exec_fails then rows else (delete_where doomed rows).0)
unfolding deleted
deleted_rows f doomed rows = ground arith

failed_rows :
    (y : Layout) (now : Time) (f : ExecFaults) (act : BlockAct) (rows : List BlockRow)
    → f.exec_fails ≡ true
    → happen y now f act rows ≡ rows
unfolding happen block unblock remove_expired deleted
failed_rows y now f (places b) rows e = elim (List-cases (validate_block y.format_character b)) [
  | inl valid ↦ ground (arith, valid, e)
  | inr (rule, rules, broken) ↦ ground (arith, broken)
]
failed_rows y now f (lifts s) rows e = ground (arith, e)
failed_rows y now f (sweeps s end) rows e = ground (arith, e)

placed_rows :
    (y : Layout) (now : Time) (f : ExecFaults) (b : Block) (rows : List BlockRow)
    → f.exec_fails ≡ false
    → happen y now f (places b) rows ≡ (
        if is_nil (validate_block y.format_character b)
        then (upsert (format_until y now) (row_of y b) rows).0
        else rows)
unfolding happen block
placed_rows y now f b rows e = elim (List-cases (validate_block y.format_character b)) [
  | inl valid ↦ ground (arith, valid, e)
  | inr (rule, rules, broken) ↦ ground (arith, broken)
]

module _ (y : Layout) (laws : IsLayout y) (now : Time) (range : IsInRange now) (f : ExecFaults)
    (works : f.exec_fails ≡ false) (rows : List BlockRow) (switch : Text → End)
    (h : StandsFor y now.instant rows switch) where
  places-StandsFor :
      (b : Block)
      → IsEndTime b.until
      → StandsFor y now.instant (happen y now f (places b) rows) (turn y now (places b) switch)
  unfolding turn
  places-StandsFor b e =
      let written = placed_rows y now f b rows works in
      elim (Bool-cases (is_nil (validate_block y.format_character b))) [
        | inl valid ↦
            StandsFor-same y now.instant _ _ _ _ (sym (written ∙ if_true _ _ _ valid))
              (λ s. ground (arith, valid)) (upsert-StandsFor y laws now range rows switch h b e)
        | inr broken ↦
            StandsFor-same y now.instant rows _ switch _ (sym (written ∙ if_false _ _ _ broken))
              (λ s. ground (arith, broken)) h
      ]

  lifts-StandsFor :
      (q : Text)
      → StandsFor y now.instant (happen y now f (lifts q) rows) (turn y now (lifts q) switch)
  unfolding happen unblock turn
  lifts-StandsFor q =
      StandsFor-same y now.instant _ _ _ _
        (sym (deleted_rows f (λ row. text_eq row.subject q) rows ∙ if_false _ _ _ works))
        (λ s. refl) (lift-StandsFor y laws now range rows switch h q)

  swept_ended :
      (q : Text) (end : Time)
      → IsInRange end
      → (row : BlockRow) → IsEnd y row
      → (text_eq row.subject q
          && text_eq row.blocked_until (format_until y end)
          && text_le row.blocked_until (format_until y now))
        ≡ true
      → enforced y now (some row) ≡ false
  unfolding enforced
  swept_ended q end r row stored doomed =
      let written : row.blocked_until ≡ format_until y end =
        text_eq→eq row.blocked_until (format_until y end) (ground (arith, doomed)) in
      let text : format_until y end ≡ y.format_end end = end_text y end r in
      ground (
        arith,
        doomed,
        written_endless y laws row end r (written ∙ text),
        has_ended-enforced y laws row now stored range,
      )

  sweeps-StandsFor :
      (q : Text) (end : Time)
      → IsEndTime end
      → StandsFor y now.instant
          (happen y now f (sweeps q end) rows)
          (turn y now (sweeps q end) switch)
  unfolding happen remove_expired turn
  sweeps-StandsFor q end (inl zero_end) =
      StandsFor-same y now.instant rows _ switch _
        (sym (
          ap {A = List BlockRow × Result BlockError Bool} (λ w. w.0)
            (if_true (is_zero_time end) _ _ zero_end)))
        (λ s. refl) h
  sweeps-StandsFor q end (inr r) =
      let doomed = λ (row : BlockRow).
        text_eq row.subject q
        && text_eq row.blocked_until (format_until y end)
        && text_le row.blocked_until (format_until y now) in
      StandsFor-same y now.instant _ _ switch _
        (sym (
          ap {A = List BlockRow × Result BlockError Bool} (λ w. w.0)
            (if_false (is_zero_time end) _ _ (ground (arith, r.after_zero)))
          ∙ deleted_rows f doomed rows
          ∙ if_false _ _ _ works))
        (λ s. refl) (delete-StandsFor y laws now range rows switch h doomed (swept_ended q end r))

module _ (y : Layout) (laws : IsLayout y) where
  happen-StandsFor :
      (now : Time) (f : ExecFaults) (act : BlockAct) (rows : List BlockRow) (switch : Text → End)
      → f.exec_fails ≡ false
      → IsInRange now
      → HasEndTime act
      → StandsFor y now.instant rows switch
      → StandsFor y now.instant (happen y now f act rows) (turn y now act switch)
  happen-StandsFor now f (places b) rows switch works r e h =
      places-StandsFor y laws now r f works rows switch h b e
  happen-StandsFor now f (lifts q) rows switch works r e h =
      lifts-StandsFor y laws now r f works rows switch h q
  happen-StandsFor now f (sweeps q end) rows switch works r e h =
      sweeps-StandsFor y laws now r f works rows switch h q end e

  StandsFor-later :
      (now later : ℕ) (rows : List BlockRow) (switch : Text → End)
      → now ≤ later
      → StandsFor y now rows switch
      → StandsFor y later rows switch
  StandsFor-later now later rows switch le h = record {
    keyed = h.keyed;
    ends = h.ends;
    agrees = λ s t k. h.agrees s t (omega (arith, le, k));
  }

  abbrev clock : List BlockEvent → ℕ
  clock [] = 0
  clock (ev ∷ earlier) = ev.now.instant

  clock_before :
      (ev : BlockEvent) (earlier : List BlockEvent)
      → All (λ e. e.now.instant ≤ ev.now.instant) earlier
      → clock earlier ≤ ev.now.instant
  clock_before ev [] h = omega arith
  clock_before ev (e ∷ earlier) h = h.0

  table_after-StandsFor :
      (evs : List BlockEvent)
      → IsTimely evs
      → StandsFor y (clock evs) (table_after y evs) (switch_after y evs)
  unfolding table_after switch_after enforced row_at
  table_after-StandsFor [] h = record { keyed = tt; ends = tt; agrees = λ s t k. refl }
  table_after-StandsFor (ev ∷ earlier) h =
      let before =
        StandsFor-later (clock earlier) ev.now.instant _ _ (clock_before ev earlier h.2)
          (table_after-StandsFor earlier h.3) in
      elim (Bool-cases ev.faults.exec_fails) [
        | inl fails ↦
            StandsFor-same y ev.now.instant _ _ _ _
              (sym (failed_rows y ev.now ev.faults ev.act (table_after y earlier) fails))
              (λ s. sym (if_true _ _ _ fails)) before
        | inr works ↦
            StandsFor-same y ev.now.instant _ _ _ _ refl (λ s. sym (if_false _ _ _ works))
              (happen-StandsFor ev.now ev.faults ev.act (table_after y earlier)
                (switch_after y earlier) works h.0 h.1 before)
      ]

  -- After any timely history, whatever statements failed, a read of the table at the last clock or
  -- later finds a subject blocked exactly if the switch of that subject is on: a block that is valid
  -- takes hold at once where none is in force and never shortens one that is, ends at its end, and
  -- a lift or its end is all that sets the subject free.
  pub blocked-switch_after :
      (evs : List BlockEvent) (s : Text) (t : Time)
      → IsTimely evs
      → clock evs ≤ t.instant
      → blocked y false t s (table_after y evs) ≡ ok (holds_at (switch_after y evs s) t.instant)
  unfolding blocked
  blocked-switch_after evs s t h later = ap ok ((table_after-StandsFor evs h).agrees s t later)
