-- ===== src/Access/Blocks/Enforced.antt =====
-- Who is blocked after any history of blocks placed, lifted and swept away.
use Prim.Native.Nat.{◌<◌, ◌≤◌, ◌*◌, ◌^◌}
use gatte.Base.{
  ◌≡◌, ◌≢◌, refl, sym, ap, ◌∙◌, ℕ, Bool, true, false, not, [], ◌∷◌, Text, text_le, leb, ltb,
  if◌then◌else◌, if_false, some, inl, inr, ◌⊎◌, arith,
}
use gatte.Quota.{Time, is_zero_time}
use gatte.Access.Blocks.{Layout, BlockRow, format_until, is_endless, enforced, has_ended}

-- The first instant that the fixed-width layout cannot write, in nanoseconds.
abbrev pub year_10000 : ℕ
year_10000 = 315537897600 * 10 ^ 9

pub record IsInRange (t : Time) : Type 0 where
  pub after_zero : 0 < t.instant
  pub before_end : t.instant < year_10000

-- What the fixed-width layout promises of times in its range: a text that is not empty, that is read
-- back as the same instant, and that compares as the instants do.
pub record IsLayout (y : Layout) : Type 0 where
  pub some_text : (t : Time) → IsInRange t → y.format_end t ≢ []
  pub back :
      (t : Time)
      → IsInRange t
      → (u : Time) × (y.parse_end (y.format_end t) ≡ some u) × (u.instant ≡ t.instant)
  pub order :
      (t u : Time)
      → IsInRange t
      → IsInRange u
      → text_le (y.format_end t) (y.format_end u) ≡ leb t.instant u.instant

-- How long a subject is blocked.
pub data End : Type 0 where
  free endless : End
  until : ℕ → End

abbrev pub holds_at : End → ℕ → Bool
holds_at free t = false
holds_at endless t = true
holds_at (until end) t = ltb t end

abbrev pub end_of : Time → End
end_of t = if is_zero_time t then endless else until t.instant

-- An end in the table: none, or one that the layout has written.
abbrev pub IsEnd : Layout → BlockRow → Type 0
IsEnd y row =
    (row.blocked_until ≡ []) ⊎ ((t : Time) × IsInRange t × (row.blocked_until ≡ y.format_end t))

abbrev pub IsEndTime : Time → Type 0
IsEndTime t = (is_zero_time t ≡ true) ⊎ IsInRange t

not_endless : (s : Text) → s ≢ [] → is_endless s ≡ false
not_endless [] h = absurd (h refl)
not_endless (x ∷ s) h = refl

pub end_text : (y : Layout) (t : Time) → IsInRange t → format_until y t ≡ y.format_end t
unfolding format_until
end_text y t r = if_false (is_zero_time t) [] (y.format_end t) (ground (arith, r.after_zero))

module _ (y : Layout) (laws : IsLayout y) where
  pub written_endless :
      (row : BlockRow) (u : Time)
      → IsInRange u
      → row.blocked_until ≡ y.format_end u
      → is_endless row.blocked_until ≡ false
  written_endless row u r e = not_endless row.blocked_until (λ q. laws.some_text u r (sym e ∙ q))

  written-enforced :
      (row : BlockRow) (u t : Time)
      → IsInRange u
      → row.blocked_until ≡ y.format_end u
      → enforced y t (some row) ≡ ltb t.instant u.instant
  unfolding enforced
  written-enforced row u t r e =
      let b = laws.back u r in
      ground (arith, written_endless row u r e, ap y.parse_end e ∙ b.1, b.2)

  pub enforced-end_of :
      (row : BlockRow) (u t : Time)
      → row.blocked_until ≡ format_until y u
      → IsEndTime u
      → enforced y t (some row) ≡ holds_at (end_of u) t.instant
  unfolding format_until enforced
  enforced-end_of row u t e (inl zero_u) = ground (arith, e, zero_u)
  enforced-end_of row u t e (inr r) =
      let some_end : is_zero_time u ≡ false = ground (arith, r.after_zero) in
      ground (
        arith,
        some_end,
        written-enforced row u t r (e ∙ if_false (is_zero_time u) [] (y.format_end u) some_end),
      )

  pub has_ended-enforced :
      (row : BlockRow) (now : Time)
      → IsEnd y row
      → IsInRange now
      → has_ended (format_until y now) row ≡ not (enforced y now (some row))
  unfolding format_until enforced
  has_ended-enforced row now (inl endless_row) r = ground (arith, endless_row)
  has_ended-enforced row now (inr (u, ru, e)) r =
      let some_now : is_zero_time now ≡ false = ground (arith, r.after_zero) in
      let now_text = if_false (is_zero_time now) [] (y.format_end now) some_now in
      let order : text_le row.blocked_until (format_until y now) ≡ leb u.instant now.instant =
        ap (λ a. text_le a (format_until y now)) e
        ∙ ap (text_le (y.format_end u)) now_text
        ∙ laws.order u now ru r in
      ground (arith, order, written_endless row u ru e, written-enforced row u now ru e)

  -- A block that is not enforced stays so.
  pub enforced_later :
      (row : BlockRow) (now t : Time)
      → now.instant ≤ t.instant
      → enforced y now (some row) ≡ false
      → enforced y t (some row) ≡ false
  unfolding enforced
  enforced_later row now t h e = ground (arith, h, e)
