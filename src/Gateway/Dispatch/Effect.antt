-- ===== src/Gateway/Dispatch/Effect.antt =====
-- When a call leaves the process, and what it costs where it does not.
use gatte.Base.{ℕ, ◌≡◌, refl, true, false, Text, [], ◌∷◌, ◌++◌, Option, none, some, arith}
use gatte.Quota.Gate.{admitted}
use gatte.Gateway.{target_of}
use gatte.Gateway.Trail.{Caller}
use gatte.Gateway.Slots.{take_slot}
use gatte.Gateway.Admit.{
  BlockError, RoutedTool, blocked_subject, context_ended, unreadable_blocklist,
}
use gatte.Gateway.World.{World, State, Answer, conn_of, mark_gone}
use gatte.Gateway.Dispatch.{dispatch, refuse, fail, refuse_blocked}
use gatte.Gateway.Dispatch.View.{
  is_refusal, Passed, View, blocked, refused, held, dispatch-View, with_slots, release_after,
}
use gatte.Gateway.Dispatch.Finish.{
  Finish, served, failed_call, lost_backend, Held, unpaid, unwritten, left, asked, paid, noted,
  departed, dispatch_held-Held,
}

-- Everything but the trail and the dead connections is as before.
pub record Keeps (s s' : State) : Type 0 where
  pub slots : s'.slots ≡ s.slots
  pub counters : s'.counters ≡ s.counters
  pub sent : s'.sent ≡ s.sent

pub mark_gone-Keeps :
    (w : World) (name : Text) (conn : Option ℕ) (s : State) → Keeps s (mark_gone w name conn s)
unfolding mark_gone
mark_gone-Keeps w name none s = record { slots = refl; counters = refl; sent = refl }
mark_gone-Keeps w name (some n) s = record {
  slots = ground arith;
  counters = ground arith;
  sent = ground arith;
}

-- The backend's answer costs nothing more, and is no refusal.
pub finish-Keeps :
    (w : World) (c : Caller) (tool : Text) (rt : RoutedTool) (conn : Option ℕ) (s : State)
    (r : State × Answer)
    → Finish w c tool rt conn s r
    → Keeps s r.0 × (is_refusal r.1 ≡ false)
unfolding fail
finish-Keeps w c tool rt conn s _ (served res notice) =
    (record { slots = refl; counters = refl; sent = refl }, refl)
finish-Keeps w c tool rt conn s _ (failed_call f a h k) =
    (record { slots = refl; counters = refl; sent = refl }, h)
finish-Keeps w c tool rt conn s _ (lost_backend f a h k) =
    let kept = mark_gone-Keeps w rt.route.upstream conn s in
    (record { slots = kept.slots; counters = kept.counters; sent = kept.sent }, h)

-- What a call has behind it when it leaves: besides all that comes before the quota, the quota and the
-- row that says so.
pub record Cleared (w : World) (c : Caller) (tool : Text) (s : State) (rt : RoutedTool)
    : Type 0 where
  pub passed : Passed w c tool s rt
  pub quota : (asked w c tool s).1 ≡ admitted
  pub audited : w.ledger.fails s.trail.writes ≡ false

-- Either the call is sent, once, or nothing is sent and the answer is a refusal.
pub data Effect (w : World) (c : Caller) (tool args : Text) (s : State) (r : State × Answer)
    : Type 0 where
  sends :
      (rt : RoutedTool)
      → Cleared w c tool s rt
      → r.0.sent ≡ s.sent ++ (rt.route.upstream, rt.route.original_name, args) ∷ []
      → r.0.counters ≡ (asked w c tool s).0
      → is_refusal r.1 ≡ false
      → Effect w c tool args s r
  charges_only :
      (rt : RoutedTool)
      → Passed w c tool s rt
      → ¬ Cleared w c tool s rt
      → r.0.sent ≡ s.sent
      → r.0.counters ≡ (asked w c tool s).0
      → is_refusal r.1 ≡ true
      → Effect w c tool args s r
  keeps_all :
      ((rt : RoutedTool) → ¬ Passed w c tool s rt)
      → r.0.sent ≡ s.sent
      → r.0.counters ≡ s.counters
      → is_refusal r.1 ≡ true
      → Effect w c tool args s r

pub refuse_blocked-Keeps :
    (w : World) (c : Caller) (tool target : Text) (e : BlockError) (s : State)
    → Keeps s (refuse_blocked w c tool target e s)
unfolding refuse_blocked refuse
refuse_blocked-Keeps w c tool target blocked_subject s = record {
  slots = refl;
  counters = refl;
  sent = refl;
}
refuse_blocked-Keeps w c tool target context_ended s = record {
  slots = refl;
  counters = refl;
  sent = refl;
}
refuse_blocked-Keeps w c tool target unreadable_blocklist s = record {
  slots = refl;
  counters = refl;
  sent = refl;
}

Held-Effect :
    (w : World) (c : Caller) (tool args : Text) (s : State) (rt : RoutedTool) (r : State × Answer)
    → Passed w c tool s rt
    → Held w c tool args rt
        (conn_of w.conns rt.route.upstream)
        (with_slots s (take_slot s.slots c.identity.subject))
        r
    → Effect w c tool args s (release_after c.identity.subject r)
unfolding refuse
Held-Effect w c tool args s rt _ p (unpaid reason a h q) =
    charges_only rt p (λ k. q k.quota) refl refl h
Held-Effect w c tool args s rt _ p (unwritten q f) =
    charges_only rt p (λ k. let g = k.audited in cc) refl refl refl
Held-Effect w c tool args s rt _ p (left r q f fin) =
    let conn = conn_of w.conns rt.route.upstream in
    let s' = with_slots s (take_slot s.slots c.identity.subject) in
    let (k, h) =
      finish-Keeps w c tool rt conn (departed rt args (noted w c tool rt (paid w c tool s'))) r
        fin in
    sends rt (record { passed = p; quota = q; audited = f }) k.sent k.counters h

View-Effect :
    (w : World) (c : Caller) (tool args : Text) (s : State) (r : State × Answer)
    → View w c tool args s r
    → Effect w c tool args s r
unfolding refuse
View-Effect w c tool args s _ (blocked e h) =
    let k = refuse_blocked-Keeps w c tool (target_of tool) e s in
    keeps_all (λ rt p. let b = p.not_blocked in cc) k.sent k.counters refl
View-Effect w c tool args s _ (refused target reason a h n) = keeps_all n refl refl h
View-Effect w c tool args s _ (held rt p) =
    Held-Effect w c tool args s rt _ p (dispatch_held-Held w c tool args rt _ _)

-- A call leaves the process exactly if nothing stands against it: the caller is not blocked, the fleet
-- is not suspended, the name is routed, the policy and the quarantine let it in, the backend is live,
-- a slot is free, the quota is granted and the allowed row is written. It then leaves once, and the
-- answer is no refusal; otherwise the answer is a refusal, and the quota is touched only by a call
-- that everything before the quota let through.
pub dispatch-Effect :
    (w : World) (c : Caller) (tool args : Text) (s : State)
    → Effect w c tool args s (dispatch w c tool args s)
dispatch-Effect w c tool args s = View-Effect w c tool args s _ (dispatch-View w c tool args s)
