-- ===== src/Quarantine/History/Served.antt =====
-- The gate after a whole history of a tool, against a reading of the history alone.
use gatte.Base.{
  ℕ, Bool, true, not, ◌&&◌, ◌||◌, ◌≡◌, ◌≢◌, inl, inr, refl, List, [], ◌∷◌, Text, text_eq,
  text_eq_iff, arith, Bool-cases,
}
use gatte.Quarantine.{
  pending, is_safe, Class, Tool, usable, observed, approve, cleared, approved_fingerprint, revoked,
  new_tool, class_valid,
}
use gatte.Quarantine.Transitions.{IsValid, new_tool-IsValid}
use gatte.Quarantine.History.{
  Act, observes, approves, approves_reviewed, clears, revokes, act, run, seen, class_seen, vouched,
  clearance, run-IsValid, run-seen, run-class_seen, run-vouched,
}

-- The gate in terms of the history alone.
pub served : Tool → List (ℕ × Act) → Bool
served first acts =
    let h = seen first acts in
    not (text_eq h [])
    && vouched first h acts
    && (is_safe (class_seen first acts) || clearance first h acts)

module _ (first : Tool) (v : IsValid first) (born : first.status ≡ pending)
    (bare : first.sensitive_cleared_hash ≡ []) where
  run-clearance :
      (h : Text)
      → h ≢ []
      → (acts : List (ℕ × Act))
      → text_eq (run first acts).sensitive_cleared_hash h ≡ clearance first h acts
  unfolding run act clearance observed approve cleared revoked approved_fingerprint
  run-clearance h some_h [] = ground (arith, text_eq_iff first.sensitive_cleared_hash h)
  run-clearance h some_h ((now, observes hash c) ∷ earlier) =
      ground (arith, run-clearance h some_h earlier)
  run-clearance h some_h ((now, approves) ∷ earlier) =
      let t = run first earlier in
      ground (
        arith,
        run-seen first v earlier,
        run-clearance h some_h earlier,
        run-IsValid first earlier v,
        text_eq_iff t.observed_hash t.approved_hash,
        text_eq_iff t.observed_hash h,
        text_eq_iff [] h,
        text_eq_iff t.sensitive_cleared_hash h,
      )
  run-clearance h some_h ((now, approves_reviewed r) ∷ earlier) =
      let t = run first earlier in
      ground (
        arith,
        run-seen first v earlier,
        run-clearance h some_h earlier,
        run-IsValid first earlier v,
        text_eq_iff t.observed_hash t.approved_hash,
        text_eq_iff t.observed_hash h,
        text_eq_iff [] h,
        text_eq_iff t.sensitive_cleared_hash h,
      )
  run-clearance h some_h ((now, clears) ∷ earlier) =
      let t = run first earlier in
      ground (
        arith,
        run-class_seen first v earlier,
        run-vouched first v born h earlier,
        run-clearance h some_h earlier,
        run-IsValid first earlier v,
        text_eq_iff t.approved_hash h,
        text_eq_iff t.approved_hash [],
        text_eq_iff t.sensitive_cleared_hash h,
      )
  run-clearance h some_h ((now, revokes) ∷ earlier) =
      let t = run first earlier in
      ground (
        arith,
        run-clearance h some_h earlier,
        run-IsValid first earlier v,
        text_eq_iff [] h,
        run-seen first v earlier,
        run-vouched first v born (seen first earlier) earlier,
        text_eq_iff t.approved_hash (seen first earlier),
        text_eq_iff t.sensitive_cleared_hash h,
      )

  usable_of_history : (acts : List (ℕ × Act)) → usable (run first acts) ≡ served first acts
  unfolding usable served
  usable_of_history acts =
      let t = run first acts in
      let h = seen first acts in
      elim (Bool-cases (text_eq h [])) [
        | inl e ↦ ground (
          arith,
          run-seen first v acts,
          text_eq_iff h [],
          text_eq_iff t.approved_hash [],
          text_eq_iff h t.approved_hash,
        )
        | inr some_h ↦ ground (
          arith,
          run-seen first v acts,
          run-class_seen first v acts,
          run-vouched first v born h acts,
          run-clearance h (λ e. ground (arith, text_eq_iff h [])) acts,
          run-IsValid first acts v,
          text_eq_iff h [],
          text_eq_iff t.approved_hash [],
          text_eq_iff t.sensitive_cleared_hash [],
          text_eq_iff t.approved_hash h,
          text_eq_iff h t.approved_hash,
          text_eq_iff t.sensitive_cleared_hash t.approved_hash,
          text_eq_iff t.sensitive_cleared_hash h,
        )
      ]

-- A tool that an upstream advertised, after any history of observations, approvals, clearances and
-- revocations, is usable exactly if the fingerprint seen last is not empty, an operator approved it
-- while it was the one seen with nothing else seen and nothing revoked since, and the class seen last
-- is safe or an operator cleared this fingerprint while it was approved with a class that can act,
-- with no other fingerprint approved since and no revocation since while the fingerprint seen was
-- vouched for. The class is a defined one at birth.
pub usable-run :
    (server tool hash : Text) (c : Class) (now : ℕ) (acts : List (ℕ × Act))
    → class_valid c ≡ true
    → let first = new_tool server tool hash c now in usable (run first acts) ≡ served first acts
unfolding new_tool
usable-run server tool hash c now acts valid =
    usable_of_history _ (new_tool-IsValid server tool hash c now valid) refl refl acts
