-- ===== src/Access/Blocks/Statements.antt =====
-- The upsert and the deletes keep the table standing for the switch.
use gatte.Base.{
  ◌≡◌, refl, Bool, true, false, not, ◌&&◌, List, Text, text_eq, text_eq_iff, if◌then◌else◌, if_true,
  if_false, some, inl, inr, arith, Bool-cases, Option-cases,
}
use gatte.Quota.{Time, is_zero_time}
use gatte.Access.Blocks.{
  Block, Layout, BlockRow, format_until, row_at, enforced, row_of, upsert, delete_where,
}
use gatte.Access.Blocks.Rows.{
  takes, row_at-upsert, upsert-All, upsert-IsKeyed, delete_where-All, delete_where-IsKeyed,
  row_at-delete_where, row_at-All, row_at-subject,
}
use gatte.Access.Blocks.Enforced.{
  IsInRange, IsLayout, IsEnd, IsEndTime, End, free, holds_at, end_of, enforced-end_of,
  has_ended-enforced, enforced_later,
}
use gatte.Access.Blocks.Switch.{StandsFor}

module _ (y : Layout) (laws : IsLayout y) (now : Time) (range : IsInRange now)
    (rows : List BlockRow) (switch : Text → End) (h : StandsFor y now.instant rows switch) where
  takes-holds :
      (s : Text)
      → takes (format_until y now) (row_at s rows) ≡ not (holds_at (switch s) now.instant)
  unfolding enforced
  takes-holds s = elim (Option-cases (row_at s rows)) [
    | inl missing ↦ ground (arith, missing, h.agrees s now (omega arith))
    | inr (row, found) ↦ ground (
      arith,
      found,
      h.agrees s now (omega arith),
      has_ended-enforced y laws row now (row_at-All (IsEnd y) rows s row h.ends found) range,
    )
  ]

  row_of-IsEnd : (b : Block) → IsEndTime b.until → IsEnd y (row_of y b)
  unfolding row_of format_until
  row_of-IsEnd b (inl zero_end) = inl (if_true (is_zero_time b.until) _ _ zero_end)
  row_of-IsEnd b (inr r) =
      inr (b.until, r, if_false (is_zero_time b.until) _ _ (ground (arith, r.after_zero)))

  pub upsert-StandsFor :
      (b : Block)
      → IsEndTime b.until
      → StandsFor y now.instant (upsert (format_until y now) (row_of y b) rows).0 (λ s.
        if not (holds_at (switch b.subject) now.instant) && text_eq b.subject s
        then end_of b.until
        else switch s)
  unfolding row_of
  upsert-StandsFor b e = record {
    keyed = upsert-IsKeyed (format_until y now) (row_of y b) rows h.keyed;
    ends = upsert-All (IsEnd y) (format_until y now) (row_of y b) rows (row_of-IsEnd b e) h.ends;
    agrees = λ s t later. ground (
      arith,
      row_at-upsert (format_until y now) (row_of y b) rows s,
      takes-holds b.subject,
      enforced-end_of y laws (row_of y b) b.until t refl e,
      h.agrees s t later,
    );
  }

  pub delete-StandsFor :
      (doomed : BlockRow → Bool)
      → ((row : BlockRow) → IsEnd y row → doomed row ≡ true → enforced y now (some row) ≡ false)
      → StandsFor y now.instant (delete_where doomed rows).0 switch
  unfolding enforced
  delete-StandsFor doomed over = record {
    keyed = delete_where-IsKeyed doomed rows h.keyed;
    ends = delete_where-All (IsEnd y) doomed rows h.ends;
    agrees = λ s t later. elim (Option-cases (row_at s rows)) [
      | inl missing ↦
          ground (arith, missing, row_at-delete_where doomed rows s h.keyed, h.agrees s t later)
      | inr (row, found) ↦ elim (Bool-cases (doomed row)) [
        | inr stays ↦
            ground
              (arith, found, stays, row_at-delete_where doomed rows s h.keyed, h.agrees s t later)
        | inl gone ↦
            let off =
              enforced_later y laws row now t later
                (over row (row_at-All (IsEnd y) rows s row h.ends found) gone) in
            let was = h.agrees s t later in
            ground (arith, found, gone, off, row_at-delete_where doomed rows s h.keyed, was)
      ]
    ];
  }

  pub lift-StandsFor :
      (q : Text)
      → StandsFor y now.instant
          (delete_where (λ row. text_eq row.subject q) rows).0
          (λ s. if text_eq q s then free else switch s)
  unfolding enforced
  lift-StandsFor q = record {
    keyed = delete_where-IsKeyed _ rows h.keyed;
    ends = delete_where-All (IsEnd y) _ rows h.ends;
    agrees = λ s t later. elim (Option-cases (row_at s rows)) [
      | inl missing ↦ ground (
        arith,
        missing,
        row_at-delete_where (λ row. text_eq row.subject q) rows s h.keyed,
        h.agrees s t later,
      )
      | inr (row, found) ↦
          let same : row.subject ≡ s = row_at-subject rows s row found in
          ground (
            arith,
            found,
            same,
            text_eq_iff row.subject q,
            text_eq_iff q s,
            row_at-delete_where (λ row. text_eq row.subject q) rows s h.keyed,
            h.agrees s t later,
          )
    ];
  }
