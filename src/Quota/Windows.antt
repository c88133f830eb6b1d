-- ===== src/Quota/Windows.antt =====
-- Accounting windows, and the charges that a valid account gives rise to.
use gatte.Base.{
  ℕ, ◌+◌, ◌-◌, ◌%◌, ◌*◌, ◌/◌, ap, ◌∙◌, ◌≤◌, ◌<◌, ◌≡◌, refl, false, not, is_blank, is_nonpos,
  pos_part, ℤ, pos, negsuc, leb, ◌==◌, [], arith, when-append-nil, is_trimmed,
}
use native.Mathlib.Nat.{mod-lt, div-add-mod, mul-add-mod_self_left, mod-eq_of_lt}
use gatte.Quota.{
  Time, Provider, validate_provider, window_start, truncate, add_duration, validate_charge,
  name_untrimmed, name_empty, upstream_empty, limit_not_positive, window_not_positive,
}
use gatte.Quota.Plan.{charge_of}

positive : (w : ℤ) → is_nonpos w ≡ false → 0 < pos_part w
positive (pos n) h = ground arith
positive (negsuc n) h = ground arith

-- The start of the window of length `w` that `t` lies in.
floor :
    (t u w : ℕ)
    → 0 < w
    → (t - t % w ≤ t)
      × (t < t - t % w + w)
      × (t - t % w ≤ u → u < t - t % w + w → u - u % w ≡ t - t % w)
floor t u w h =
    let m = mod-lt t h in
    let e = div-add-mod t w in
    (
      omega arith,
      omega arith,
      λ a b.
          let d = u - (t - t % w) in
          let ud : u ≡ w * (t / w) + d = omega arith in
          let small : d < w = omega arith in
          let md = ap (λ n. n % w) ud ∙ mul-add-mod_self_left w (t / w) d ∙ mod-eq_of_lt small in
          omega arith,
    )

module _ (p : Provider) (valid : validate_provider p ≡ []) where
  facts : (is_blank p.name ≡ false) × (is_nonpos p.limit ≡ false) × (is_nonpos p.window ≡ false)
  unfolding validate_provider
  facts =
      let a = when-append-nil (not (is_trimmed p.name)) name_untrimmed _ valid in
      let b = when-append-nil (is_blank p.name) name_empty _ a.1 in
      let c = when-append-nil (is_blank p.upstream) upstream_empty _ b.1 in
      let d = when-append-nil (is_nonpos p.limit) limit_not_positive _ c.1 in
      let e = when-append-nil (is_nonpos p.window) window_not_positive _ d.1 in (b.0, d.0, e.0)

  pos_window : 0 < pos_part p.window
  pos_window = let (_, _, h) = facts in positive p.window h

  -- The window of a valid account contains the instant, starts in UTC, and two instants have the same
  -- start, zone and all, exactly if they lie in the same window: one window has one key.
  pub window_start_lem :
      (t u : Time)
      → let s = (charge_of p t).window_start in
        let e = (charge_of p t).window_end in
        (s.instant ≤ t.instant)
        × (t.instant < e.instant)
        × (s.offset ≡ pos 0)
        × (s.instant ≤ u.instant → u.instant < e.instant → window_start p u ≡ s)
  unfolding charge_of window_start truncate add_duration
  window_start_lem t u =
      let (_, _, h) = facts in
      let hp = pos_window in
      let (a, b, c) = floor t.instant u.instant (pos_part p.window) hp in
      rw h (a, b, refl, λ x y. ap (λ n. record { instant = n; offset = pos 0 }) (c x y))

  -- Every charge of a valid account is a valid charge, from the second window on.
  pub validate_charge_of :
      (t : Time) → pos_part p.window ≤ t.instant → validate_charge (charge_of p t) ≡ []
  unfolding charge_of window_start truncate add_duration validate_charge
  validate_charge_of t h =
      let (hn, hl, hw) = facts in
      let hp = pos_window in
      let s = t.instant - t.instant % pos_part p.window in
      let m = mod-lt t.instant hp in
      let z : (s == 0) ≡ false = ground arith in
      let l : leb (s + pos_part p.window) s ≡ false = ground arith in rw (hn, hl, hw, z, l)
