-- ===== src/Gateway/Dispatch/Safety.antt =====
-- What a call that left the process says of the caller and the tool, and what a refusal hides.
use gatte.Base.{◌≡◌, ◌≢◌, ◌∙◌, true, Text, List, [], some, Option-cases, Bool-cases, inl, inr, ok}
use gatte.Access.Policy.{authorize}
use gatte.Gateway.Trail.{Caller}
use gatte.Gateway.Admit.{
  RoutedTool, lookup, admit, tool_quarantined, check_block, Listed, list_tools,
}
use gatte.Gateway.Admit.Gates.{Open, admit-Open}
use gatte.Gateway.Admit.Listing.{shows, is_open, list_tools-is_open}
use gatte.Gateway.World.{World, State, Answer}
use gatte.Gateway.Dispatch.{dispatch}
use gatte.Gateway.Dispatch.Effect.{Effect, sends, charges_only, keeps_all, Cleared, dispatch-Effect}

Cleared-of_sent :
    (w : World) (c : Caller) (tool args : Text) (s : State) (r : State × Answer)
    → Effect w c tool args s r
    → r.0.sent ≢ s.sent
    → (rt : RoutedTool) × Cleared w c tool s rt
Cleared-of_sent w c tool args s r (sends rt k h m a) d = (rt, k)
Cleared-of_sent w c tool args s r (charges_only rt p n h m a) d = absurd (d h)
Cleared-of_sent w c tool args s r (keeps_all n h m a) d = absurd (d h)

-- A call that leaves the process is to a routed tool that the policy allows the caller, and whose row
-- in the quarantine is usable at that moment; where the tool may act, a role with more than read access
-- names it.
pub sent-Open :
    (w : World) (c : Caller) (tool args : Text) (s : State)
    → (dispatch w c tool args s).0.sent ≢ s.sent
    → (rt : RoutedTool) × (lookup w.routes tool ≡ some rt)
      × (authorize w.policy c.identity tool ≡ true)
      × Open w.quarantine w.policy c.identity tool rt
sent-Open w c tool args s d =
    let (rt, k) = Cleared-of_sent w c tool args s _ (dispatch-Effect w c tool args s) d in
    let p = k.passed in
    (rt, p.routed, p.authorized, (admit-Open w.quarantine w.policy c.identity tool rt).0 p.cleared)

-- Whatever a caller can send, a listing by the same stores shows.
pub sent-shows :
    (w : World) (c : Caller) (tool args : Text) (s : State) (out : List Listed)
    → (dispatch w c tool args s).0.sent ≢ s.sent
    → list_tools w.admitted_subject w.block w.suspended w.quarantine w.policy w.routes c.identity
      ≡ ok out
    → shows out tool ≡ true
unfolding is_open
sent-shows w c tool args s out d h =
    let (rt, k) = Cleared-of_sent w c tool args s _ (dispatch-Effect w c tool args s) d in
    let p = k.passed in
    let opened : is_open w.quarantine w.policy c.identity w.routes tool ≡ true =
      rw (is_open, p.routed, p.authorized, p.cleared) in
    list_tools-is_open w.quarantine w.policy c.identity w.routes w.admitted_subject w.block
      w.suspended out tool h
    ∙ opened

-- A tool that is not approved is answered as if no such tool were routed.
pub dispatch-hides :
    (w : World) (c : Caller) (tool args : Text) (s : State) (rt : RoutedTool)
    → lookup w.routes tool ≡ some rt
    → authorize w.policy c.identity tool ≡ true
    → admit w.quarantine w.policy c.identity tool rt ≡ some tool_quarantined
    → (dispatch w c tool args s).1 ≡ (dispatch (record w { routes = [] }) c tool args s).1
unfolding dispatch lookup
dispatch-hides w c tool args s rt routed authorized quarantined =
    elim (Option-cases (check_block w.admitted_subject c.identity.subject w.block)) [
      | inr (e, h) ↦ rw (dispatch, h)
      | inl h ↦ elim (Bool-cases w.suspended) [
        | inl b ↦ rw (dispatch, h, b)
        | inr b ↦ rw (dispatch, h, b, routed, authorized, quarantined)
      ]
    ]
