-- ===== src/Quarantine/History.antt =====
-- Histories of one tool: observations, approvals, clearances and revocations in any order. A call
-- that the code refuses leaves the tool as it was.
pub mod Served
use gatte.Base.{
  ℕ, Bool, true, false, not, ◌&&◌, ◌||◌, ◌≡◌, ◌≢◌, inl, inr, refl, List, [], ◌∷◌, Text, text_eq,
  text_eq_iff, if◌then◌else◌, Result, ok, err, arith, Bool-cases,
}
use gatte.Quarantine.{
  pending, is_safe, is_approved, Class, Tool, usable, observed, approve, cleared,
  approved_fingerprint, revoked, new_tool, class_valid, QuarantineError,
}
use gatte.Quarantine.Transitions.{
  IsValid, new_tool-IsValid, observed-IsValid, approve-IsValid, cleared-IsValid, revoked-IsValid,
  approved_fingerprint-IsValid,
}

pub data Act : Type 0 where
  observes : Text → Class → Act
  approves : Act
  approves_reviewed : Text → Act
  clears : Act
  revokes : Act

abbrev pub or_unchanged : Tool → Result QuarantineError Tool → Tool
or_unchanged t (ok t') = t'
or_unchanged t (err e) = t

unfoldable pub act : ℕ → Tool → Act → Tool
act now t (observes hash c) = or_unchanged t (observed t hash c now)
act now t approves = approve t now
act now t (approves_reviewed r) = or_unchanged t (approved_fingerprint t r now)
act now t clears = or_unchanged t (cleared t now)
act now t revokes = or_unchanged t (revoked t now)

or_unchanged-IsValid :
    (t : Tool) (r : Result QuarantineError Tool)
    → IsValid t
    → ((t' : Tool) → r ≡ ok t' → IsValid t')
    → IsValid (or_unchanged t r)
or_unchanged-IsValid t (ok t') v f = f t' refl
or_unchanged-IsValid t (err e) v f = v

pub act-IsValid : (now : ℕ) (t : Tool) (a : Act) → IsValid t → IsValid (act now t a)
unfolding act
act-IsValid now t (observes hash c) v =
    or_unchanged-IsValid t _ v (λ t' e. observed-IsValid t hash c now v e)
act-IsValid now t approves v = approve-IsValid t now v
act-IsValid now t (approves_reviewed r) v =
    or_unchanged-IsValid t _ v (λ t' e. approved_fingerprint-IsValid t r now v e)
act-IsValid now t clears v = or_unchanged-IsValid t _ v (λ t' e. cleared-IsValid t now v e)
act-IsValid now t revokes v = or_unchanged-IsValid t _ v (λ t' e. revoked-IsValid t now v e)

-- The tool that `first` becomes by a history, whose latest act stands at the head.
unfoldable pub run : Tool → List (ℕ × Act) → Tool
run first [] = first
run first ((now, a) ∷ earlier) = act now (run first earlier) a

-- The fingerprint and the class of the latest observation that the code accepts.
pub seen : Tool → List (ℕ × Act) → Text
seen first [] = first.observed_hash
seen first ((now, observes hash c) ∷ earlier) = if class_valid c then hash else seen first earlier
seen first ((now, _) ∷ earlier) = seen first earlier

pub class_seen : Tool → List (ℕ × Act) → Class
class_seen first [] = first.class
class_seen first ((now, observes hash c) ∷ earlier) =
    if class_valid c then c else class_seen first earlier
class_seen first ((now, _) ∷ earlier) = class_seen first earlier

-- An independent reading of a history: an operator approved the fingerprint `h` while it was the
-- one seen, and since then nothing else was seen and nobody revoked.
pub vouched : Tool → Text → List (ℕ × Act) → Bool
vouched first h [] = false
vouched first h ((now, observes hash c) ∷ earlier) =
    if class_valid c then text_eq hash h && vouched first h earlier else vouched first h earlier
vouched first h ((now, approves) ∷ earlier) = text_eq (seen first earlier) h
vouched first h ((now, approves_reviewed r) ∷ earlier) =
    if text_eq (seen first earlier) r
    then text_eq (seen first earlier) h
    else vouched first h earlier
vouched first h ((now, clears) ∷ earlier) = vouched first h earlier
vouched first h ((now, revokes) ∷ earlier) = false

-- An operator cleared `h` while it was vouched for and the class could act, and since then no other
-- fingerprint was approved and nobody revoked a tool whose fingerprint seen was vouched for.
pub clearance : Tool → Text → List (ℕ × Act) → Bool
clearance first h [] = false
clearance first h ((now, observes hash c) ∷ earlier) = clearance first h earlier
clearance first h ((now, approves) ∷ earlier) =
    text_eq (seen first earlier) h && clearance first h earlier
clearance first h ((now, approves_reviewed r) ∷ earlier) =
    if text_eq (seen first earlier) r
    then text_eq (seen first earlier) h && clearance first h earlier
    else clearance first h earlier
clearance first h ((now, clears) ∷ earlier) =
    vouched first h earlier && not (is_safe (class_seen first earlier)) || clearance first h earlier
clearance first h ((now, revokes) ∷ earlier) =
    clearance first h earlier && not (vouched first (seen first earlier) earlier)

pub run-IsValid : (first : Tool) (acts : List (ℕ × Act)) → IsValid first → IsValid (run first acts)
unfolding run
run-IsValid first [] v = v
run-IsValid first ((now, a) ∷ earlier) v =
    act-IsValid now (run first earlier) a (run-IsValid first earlier v)

module _ (first : Tool) (v : IsValid first) where
  pub run-seen : (acts : List (ℕ × Act)) → (run first acts).observed_hash ≡ seen first acts
  unfolding run act seen observed approve cleared revoked approved_fingerprint
  run-seen [] = refl
  run-seen ((now, observes hash c) ∷ earlier) =
      ground (arith, run-seen earlier, run-IsValid first earlier v)
  run-seen ((now, approves) ∷ earlier) = run-seen earlier
  run-seen ((now, approves_reviewed r) ∷ earlier) = ground (arith, run-seen earlier)
  run-seen ((now, clears) ∷ earlier) = ground (arith, run-seen earlier)
  run-seen ((now, revokes) ∷ earlier) = ground (arith, run-seen earlier)

  pub run-class_seen : (acts : List (ℕ × Act)) → (run first acts).class ≡ class_seen first acts
  unfolding run act class_seen observed approve cleared revoked approved_fingerprint
  run-class_seen [] = refl
  run-class_seen ((now, observes hash c) ∷ earlier) =
      ground (arith, run-class_seen earlier, run-IsValid first earlier v)
  run-class_seen ((now, approves) ∷ earlier) = run-class_seen earlier
  run-class_seen ((now, approves_reviewed r) ∷ earlier) = ground (arith, run-class_seen earlier)
  run-class_seen ((now, clears) ∷ earlier) = ground (arith, run-class_seen earlier)
  run-class_seen ((now, revokes) ∷ earlier) = ground (arith, run-class_seen earlier)

  module _ (born : first.status ≡ pending) (h : Text) where
    run-vouched :
        (acts : List (ℕ × Act))
        → (is_approved (run first acts).status && text_eq (run first acts).approved_hash h)
          ≡ vouched first h acts
    unfolding run act vouched observed approve cleared revoked approved_fingerprint
    run-vouched [] = ground arith
    run-vouched ((now, observes hash c) ∷ earlier) =
        let t = run first earlier in
        ground (
          arith,
          run-vouched earlier,
          run-IsValid first earlier v,
          text_eq_iff hash t.approved_hash,
          text_eq_iff hash h,
          text_eq_iff t.approved_hash h,
        )
    run-vouched ((now, approves) ∷ earlier) = rw (run-seen earlier)
    run-vouched ((now, approves_reviewed r) ∷ earlier) =
        ground (arith, run-seen earlier, run-vouched earlier)
    run-vouched ((now, clears) ∷ earlier) = ground (arith, run-vouched earlier)
    run-vouched ((now, revokes) ∷ earlier) =
        ground (arith, run-vouched earlier, run-IsValid first earlier v)
