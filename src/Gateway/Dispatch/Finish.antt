-- ===== src/Gateway/Dispatch/Finish.antt =====
-- The ways through `finish` and through `dispatch_held`.
use gatte.Base.{
  ℕ, ◌≡◌, ◌≢◌, ◌⊎◌, if◌then◌else◌, refl, sym, subst, Bool, true, false, Text, [], ◌∷◌, ◌++◌, Option,
  Result, ok, err, arith, inl, inr, Bool-cases, Option-cases,
}
use gatte.Quota.{Charge}
use gatte.Quota.Store.{Counters}
use gatte.Quota.Gate
use gatte.Quota.Gate.{Admission, admitted, refused_exhausted, refused_unavailable}
use gatte.Gateway.Trail.{Reason, unexplained, allowed, Caller, Failure, record_row}
use gatte.Gateway.Admit.{RoutedTool}
use gatte.Gateway.World.{
  World, State, Payload, Answer, answered, mark_gone, check_result, not_audited, result_over_limit,
  result_off_schema, no_sentinel, gateway_notice,
}
use gatte.Gateway.Dispatch.{dispatch_held, finish, send, refuse, fail, failure_answer}
use gatte.Gateway.Dispatch.View.{is_refusal, is_answered}

pub data Finish (w : World) (c : Caller) (tool : Text) (rt : RoutedTool) (conn : Option ℕ)
    (s : State) : State × Answer → Type 0 where
  served : (res : Payload) (notice : Bool) → Finish w c tool rt conn s (s, answered res notice)
  failed_call :
      (f : Failure) (a : Answer)
      → is_refusal a ≡ false
      → is_answered a ≡ false
      → Finish w c tool rt conn s (fail w c tool rt.route.upstream f s, a)
  lost_backend :
      (f : Failure) (a : Answer)
      → is_refusal a ≡ false
      → is_answered a ≡ false
      → Finish w c tool rt conn s
          (fail w c tool rt.route.upstream f (mark_gone w rt.route.upstream conn s), a)

failure_answer_lem :
    (w : World) (f : Failure)
    → (is_refusal (failure_answer w f) ≡ false) × (is_answered (failure_answer w f) ≡ false)
unfolding failure_answer
failure_answer_lem w f = ground arith

result_answer_lem :
    (b : Bool) (w : World)
    → let a = if b then result_over_limit w.max_result_bytes else result_off_schema in
      (is_refusal a ≡ false) × (is_answered a ≡ false)
result_answer_lem true w = (refl, refl)
result_answer_lem false w = (refl, refl)

failed_or_lost :
    (w : World) (c : Caller) (tool : Text) (rt : RoutedTool) (conn : Option ℕ) (f : Failure)
    (s : State) (b : Bool)
    → Finish w c tool rt conn s (
      fail w c tool rt.route.upstream f (if b then mark_gone w rt.route.upstream conn s else s),
      failure_answer w f,
    )
failed_or_lost w c tool rt conn f s true =
    let (a, b) = failure_answer_lem w f in lost_backend f _ a b
failed_or_lost w c tool rt conn f s false =
    let (a, b) = failure_answer_lem w f in failed_call f _ a b

pub finish-Finish :
    (w : World) (c : Caller) (tool : Text) (rt : RoutedTool) (conn : Option ℕ)
    (r : Result Failure Payload) (s : State)
    → Finish w c tool rt conn s (finish w c tool rt conn r s)
unfolding finish
finish-Finish w c tool rt conn (err f) s = failed_or_lost w c tool rt conn f s f.is_gone
finish-Finish w c tool rt conn (ok res) s = elim (Option-cases (check_result w rt res)) [
  | inr (f, h) ↦
      let (a, b) = result_answer_lem f.is_too_large w in rw (finish, h) (failed_call f _ a b)
  | inl h ↦ elim (Option-cases (w.scrub rt.route.upstream res)) [
    | inl k ↦ rw (finish, h, k) (failed_call no_sentinel _ refl refl)
    | inr (scrubbed, k) ↦ rw (finish, h, k) (served scrubbed (gateway_notice w))
  ]
]

abbrev pub asked : World → Caller → Text → State → Counters × Admission
asked w c tool s = Gate.admit w.plan w.faults c.identity.subject tool w.quota_now s.counters

abbrev pub paid : World → Caller → Text → State → State
paid w c tool s = record s { counters = (asked w c tool s).0 }

-- The trail with the row that precedes the call.
abbrev pub noted : World → Caller → Text → RoutedTool → State → State
noted w c tool rt s = record s {
  trail = (record_row w.ledger c tool rt.route.upstream allowed unexplained s.trail).0;
}

abbrev pub departed : RoutedTool → Text → State → State
departed rt args s = record s {
  sent = s.sent ++ (rt.route.upstream, rt.route.original_name, args) ∷ [];
}

pub data Held (w : World) (c : Caller) (tool args : Text) (rt : RoutedTool) (conn : Option ℕ)
    (s : State) : State × Answer → Type 0 where
  unpaid :
      (reason : Reason) (a : Answer)
      → is_refusal a ≡ true
      → (asked w c tool s).1 ≢ admitted
      → Held w c tool args rt conn s (refuse w c tool rt.route.upstream reason (paid w c tool s), a)
  unwritten :
      (asked w c tool s).1 ≡ admitted
      → w.ledger.fails s.trail.writes ≡ true
      → Held w c tool args rt conn s (noted w c tool rt (paid w c tool s), not_audited)
  left :
      (r : State × Answer)
      → (asked w c tool s).1 ≡ admitted
      → w.ledger.fails s.trail.writes ≡ false
      → Finish w c tool rt conn (departed rt args (noted w c tool rt (paid w c tool s))) r
      → Held w c tool args rt conn s r

Admission-cases :
    (a : Admission)
    → (a ≡ admitted)
      ⊎ (a ≡ refused_unavailable)
      ⊎ ((charge : Charge) × (a ≡ refused_exhausted charge))
Admission-cases admitted = inl refl
Admission-cases refused_unavailable = inr (inl refl)
Admission-cases (refused_exhausted charge) = inr (inr (charge, refl))

pub dispatch_held-Held :
    (w : World) (c : Caller) (tool args : Text) (rt : RoutedTool) (conn : Option ℕ) (s : State)
    → Held w c tool args rt conn s (dispatch_held w c tool args rt conn s)
unfolding dispatch_held send record_row
dispatch_held-Held w c tool args rt conn s = elim (Admission-cases (asked w c tool s).1) [
  | inr (inl h) ↦ rw (dispatch_held, h) (unpaid _ _ refl (λ k. cc))
  | inr (inr (charge, h)) ↦ rw (dispatch_held, h) (unpaid _ _ refl (λ k. cc))
  | inl h ↦ elim (Bool-cases (w.ledger.fails s.trail.writes)) [
    | inl f ↦
        let e : dispatch_held w c tool args rt conn s
            ≡ (noted w c tool rt (paid w c tool s), not_audited) =
          rw (dispatch_held, h, f) in
        subst (Held w c tool args rt conn s) (sym e) (unwritten h f)
    | inr f ↦
        let r = departed rt args (noted w c tool rt (paid w c tool s)) in
        let answer = w.backend conn rt.route.original_name args in
        let e : dispatch_held w c tool args rt conn s ≡ finish w c tool rt conn answer r =
          rw (dispatch_held, h, f) in
        subst (Held w c tool args rt conn s) (sym e)
          (left _ h f (finish-Finish w c tool rt conn answer r))
  ]
]
