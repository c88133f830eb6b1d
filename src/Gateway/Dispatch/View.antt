-- ===== src/Gateway/Dispatch/View.antt =====
-- The ways through `dispatch`, each with the conditions under which it is taken.
use gatte.Base.{
  ◌≡◌, refl, sym, subst, Bool, true, false, Text, none, some, inl, inr, Bool-cases, Option-cases,
}
use gatte.Access.Policy.{authorize}
use gatte.Gateway.{target_of}
use gatte.Gateway.Trail.{Reason, Caller}
use gatte.Gateway.Slots.{InUse, in_use, at_limit, take_slot, acquire, release}
use gatte.Gateway.Admit
use gatte.Gateway.Admit.{BlockError, RoutedTool, lookup, check_block, context_ended}
use gatte.Gateway.World.{
  World, State, Answer, answered, refused_block, backend_gone, call_timed_out, call_ended,
  backend_failed, result_over_limit, result_off_schema, scrub_failed, conn_of, availability,
}
use gatte.Gateway.Dispatch.{
  dispatch, dispatch_granted, dispatch_held, admit_answer, with_slot, refuse, refuse_blocked,
}

-- The answers of a call that did not leave the process.
abbrev pub is_refusal : Answer → Bool
is_refusal (answered res notice) = false
is_refusal backend_gone = false
is_refusal call_timed_out = false
is_refusal call_ended = false
is_refusal backend_failed = false
is_refusal (result_over_limit n) = false
is_refusal result_off_schema = false
is_refusal scrub_failed = false
is_refusal _ = true

abbrev pub is_answered : Answer → Bool
is_answered (answered res notice) = true
is_answered _ = false

-- What a call has behind it when it asks for its quota.
pub record Passed (w : World) (c : Caller) (tool : Text) (s : State) (rt : RoutedTool)
    : Type 0 where
  pub not_blocked : check_block w.admitted_subject c.identity.subject w.block ≡ none
  pub running : w.suspended ≡ false
  pub routed : lookup w.routes tool ≡ some rt
  pub authorized : authorize w.policy c.identity tool ≡ true
  pub cleared : Admit.admit w.quarantine w.policy c.identity tool rt ≡ none
  pub live : availability w s.gone rt.route.upstream (conn_of w.conns rt.route.upstream) ≡ none
  pub has_slot : at_limit (in_use s.slots c.identity.subject) w.max_calls ≡ false

abbrev pub with_slots : State → InUse → State
with_slots s slots = record s { slots = slots }

abbrev pub release_after : Text → State × Answer → State × Answer
release_after subject (s, a) = (record s { slots = release s.slots subject }, a)

pub data View (w : World) (c : Caller) (tool args : Text) (s : State)
    : State × Answer → Type 0 where
  blocked :
      (e : BlockError)
      → check_block w.admitted_subject c.identity.subject w.block ≡ some e
      → View w c tool args s (refuse_blocked w c tool (target_of tool) e s, refused_block e)
  refused :
      (target : Text) (reason : Reason) (a : Answer)
      → is_refusal a ≡ true
      → ((rt : RoutedTool) → ¬ Passed w c tool s rt)
      → View w c tool args s (refuse w c tool target reason s, a)
  held :
      (rt : RoutedTool)
      → Passed w c tool s rt
      → View w c tool args s (
          release_after c.identity.subject (
            dispatch_held w c tool args rt
              (conn_of w.conns rt.route.upstream)
              (with_slots s (take_slot s.slots c.identity.subject))))

-- The conditions that do not depend on the state.
record Granted (w : World) (c : Caller) (tool : Text) (rt : RoutedTool) : Type 0 where
  not_blocked : check_block w.admitted_subject c.identity.subject w.block ≡ none
  running : w.suspended ≡ false
  routed : lookup w.routes tool ≡ some rt
  authorized : authorize w.policy c.identity tool ≡ true
  cleared : Admit.admit w.quarantine w.policy c.identity tool rt ≡ none

admit_refuses : (e : Admit.AdmitError) → is_refusal (admit_answer e) ≡ true
admit_refuses Admit.tool_quarantined = refl
admit_refuses Admit.quarantine_unavailable = refl
admit_refuses Admit.sensitive_not_granted = refl

Granted-View :
    (w : World) (c : Caller) (tool args : Text) (s : State) (rt : RoutedTool)
    → Granted w c tool rt
    → View w c tool args s (dispatch_granted w c tool args rt (conn_of w.conns rt.route.upstream) s)
unfolding dispatch_granted with_slot acquire
Granted-View w c tool args s rt g =
    elim (Option-cases
      (availability w s.gone rt.route.upstream (conn_of w.conns rt.route.upstream))) [
        | inr (st, h) ↦
            rw (dispatch_granted, h)
              (refused _ _ _ refl
                (λ q p. let a = p.live in let b = p.routed in let d = g.routed in cc))
        | inl live ↦ elim (Bool-cases (at_limit (in_use s.slots c.identity.subject) w.max_calls)) [
          | inl full ↦
              rw (dispatch_granted, live, full)
                (refused _ _ _ refl (λ q p. let a = p.has_slot in cc))
          | inr room ↦
              rw (dispatch_granted, live, room)
                (held rt record {
                  not_blocked = g.not_blocked;
                  running = g.running;
                  routed = g.routed;
                  authorized = g.authorized;
                  cleared = g.cleared;
                  live = live;
                  has_slot = room;
                })
        ]
      ]

-- Every call takes one of the ways.
pub dispatch-View :
    (w : World) (c : Caller) (tool args : Text) (s : State)
    → View w c tool args s (dispatch w c tool args s)
unfolding dispatch
dispatch-View w c tool args s =
    elim (Option-cases (check_block w.admitted_subject c.identity.subject w.block)) [
      | inr (e, h) ↦ rw (dispatch, h) (blocked e h)
      | inl unblocked ↦ elim (Bool-cases w.suspended) [
        | inl h ↦ rw (dispatch, unblocked, h) (refused _ _ _ refl (λ rt p. let a = p.running in cc))
        | inr running ↦ elim (Option-cases (lookup w.routes tool)) [
          | inl h ↦
              rw (dispatch, unblocked, running, h)
                (refused _ _ _ refl (λ rt p. let a = p.routed in cc))
          | inr (rt, routed) ↦ elim (Bool-cases (authorize w.policy c.identity tool)) [
            | inr h ↦
                rw (dispatch, unblocked, running, routed, h)
                  (refused _ _ _ refl (λ q p. let a = p.authorized in cc))
            | inl authorized ↦
                elim (Option-cases (Admit.admit w.quarantine w.policy c.identity tool rt)) [
                  | inr (e, h) ↦
                      rw (dispatch, unblocked, running, routed, authorized, h)
                        (refused _ _ _ (admit_refuses e)
                          (λ q p. let a = p.cleared in let b = p.routed in cc))
                  | inl cleared ↦
                      let conn = conn_of w.conns rt.route.upstream in
                      let e : dispatch w c tool args s ≡ dispatch_granted w c tool args rt conn s =
                        rw (dispatch, unblocked, running, routed, authorized, cleared) in
                      subst (View w c tool args s) (sym e) (
                        Granted-View w c tool args s rt record {
                          not_blocked = unblocked;
                          running = running;
                          routed = routed;
                          authorized = authorized;
                          cleared = cleared;
                        })
                ]
          ]
        ]
      ]
    ]
