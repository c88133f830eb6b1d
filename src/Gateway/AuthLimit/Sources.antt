-- ===== src/Gateway/AuthLimit/Sources.antt =====
-- The map of sources stays within its bound.
use gatte.Base.{
  ℕ, suc, ◌≤◌, ◌≡◌, refl, sym, ap, subst, ◌∙◌, Bool, true, false, Text, if◌then◌else◌, [], ◌∷◌,
  length, some, leb, arith, Bool-cases, Option-cases, inl, inr,
}
use gatte.Gateway.AuthLimit.{
  Floats, max_sources, per_source_rate, per_source_burst, new_bucket, Bucket, take, Sources,
  AuthLimiter, bucket_of, put, remove, evict, source_allows, mark_source, marked_or_dropped,
  over_source, over_global, classify, oldest_of, is_marked, global_rate, global_burst,
}

length-put_le : (m : Sources) (s : Text) (b : Bucket) → length (put m s b) ≤ suc (length m)
unfolding put
length-put_le [] s b = omega arith
length-put_le ((k, c) ∷ m) s b = ground (arith, length-put_le m s b)

length-put_old :
    (m : Sources) (s : Text) (b c : Bucket) → bucket_of m s ≡ some c → length (put m s b) ≡ length m
unfolding put bucket_of
length-put_old [] s b c h = absurd cc
length-put_old ((k, d) ∷ m) s b c h = ground (arith, length-put_old m s b c)

length-remove_le : (m : Sources) (s : Text) → length (remove m s) ≤ length m
unfolding remove
length-remove_le [] s = omega arith
length-remove_le ((k, c) ∷ m) s = ground (arith, length-remove_le m s)

length-evict_le :
    (iteration : Sources → Sources) (m : Sources) → length (evict iteration m) ≤ length m
unfolding evict
length-evict_le iteration m = go (iteration m) refl
  where
    go : (o : Sources) → iteration m ≡ o → length (evict iteration m) ≤ length m
    go [] e = ground (arith, e)
    go ((s, b) ∷ rest) e = ground (arith, e, length-remove_le m (oldest_of 7 s b.seen rest))

source_allows_le :
    (fl : Floats) (iteration : Sources → Sources) (m : Sources) (s : Text) (now : ℕ)
    → length m ≤ max_sources
    → length (source_allows fl iteration m s now).0 ≤ max_sources
unfolding source_allows
source_allows_le fl iteration m s now h = elim (Option-cases (bucket_of m s)) [
  | inr (b, e) ↦
      rw (source_allows, e)
        (ground (
          arith,
          length-put_old m s
              (take fl b now (fl.literal per_source_rate) (fl.literal per_source_burst)).0 b e,
        ))
  | inl e ↦
      let m' = if leb max_sources (length m) then evict iteration m else m in
      let bounded : length m' ≤ max_sources = ground (arith, length-evict_le iteration m) in
      elim (Bool-cases (leb max_sources (length m'))) [
        | inl full ↦ rw (source_allows, e, full) bounded
        | inr room ↦
            rw (source_allows, e, room)
              (ground (
                arith,
                room,
                length-put_le m' s
                    (take fl new_bucket now (fl.literal per_source_rate)
                      (fl.literal per_source_burst)).0,
              ))
      ]
]

mark_source_le : (m : Sources) (s : Text) (now : ℕ) → length (mark_source m s now).0 ≡ length m
unfolding mark_source
mark_source_le m s now = elim (Option-cases (bucket_of m s)) [
  | inl e ↦ rw (mark_source, e) refl
  | inr (b, e) ↦
      rw (mark_source, e) (ground (arith, length-put_old m s (record b { marker = now }) b e))
]

marked_or_dropped_sources :
    (b : Bool) (l : AuthLimiter) → (marked_or_dropped b l).0.sources ≡ l.sources
marked_or_dropped_sources true l = refl
marked_or_dropped_sources false l = refl

over_source_le :
    (l : AuthLimiter) (s : Text) (now : ℕ)
    → length (over_source l s now).0.sources ≡ length l.sources
unfolding over_source
over_source_le l s now =
    ap (λ m. length m) (marked_or_dropped_sources (mark_source l.sources s now).1 _)
    ∙ mark_source_le l.sources s now

over_global_sources : (l : AuthLimiter) (now : ℕ) → (over_global l now).0.sources ≡ l.sources
unfolding over_global
over_global_sources l now = elim (Bool-cases (is_marked l.global_marker now)) [
  | inl h ↦ rw h refl
  | inr h ↦ rw h refl
]

-- However many addresses a flood comes from, the limiter keeps at most 1024 of them.
pub classify_sources :
    (fl : Floats) (iteration : Sources → Sources) (l : AuthLimiter) (source : Text) (now : ℕ)
    → length l.sources ≤ max_sources
    → length (classify fl iteration l source now).0.sources ≤ max_sources
unfolding classify
classify_sources fl iteration l source now h =
    let kept = source_allows_le fl iteration l.sources source now h in
    elim (Bool-cases (source_allows fl iteration l.sources source now).1) [
      | inr a ↦
          rw (classify, a)
            (ground (
              arith,
              kept,
              over_source_le
                  (record l { sources = (source_allows fl iteration l.sources source now).0 })
                  source now,
            ))
      | inl a ↦
          elim (Bool-cases
            (take fl l.global now (fl.literal global_rate) (fl.literal global_burst)).1) [
              | inl b ↦ rw (classify, a, b) kept
              | inr b ↦
                  rw (classify, a, b)
                    (subst (λ m. length m ≤ max_sources) (sym (over_global_sources _ now)) kept)
            ]
    ]
