-- ===== src/Gateway/Dispatch/Release.antt =====
-- The slot of a call, on every way out of `dispatch`.
use gatte.Base.{◌≡◌, refl, subst, sym, ◌∙◌, ℕ, Text, Option, arith}
use gatte.Gateway.{target_of}
use gatte.Gateway.Trail.{Caller}
use gatte.Gateway.Admit.{RoutedTool}
use gatte.Gateway.Slots.{InUse, in_use, take_slot, release}
use gatte.Gateway.Slots.InFlight.{
  IsSlots, in_use-take_slot, in_use-release, take_slot-IsSlots, release-IsSlots,
}
use gatte.Gateway.World.{World, State, Answer, conn_of}
use gatte.Gateway.Dispatch.{dispatch, refuse}
use gatte.Gateway.Dispatch.View.{View, blocked, refused, held, dispatch-View, with_slots}
use gatte.Gateway.Dispatch.Finish.{
  Held, unpaid, unwritten, left, paid, noted, departed, dispatch_held-Held,
}
use gatte.Gateway.Dispatch.Effect.{finish-Keeps, refuse_blocked-Keeps}

abbrev SameSlots : InUse → InUse → Type 0
SameSlots m m' = IsSlots m' × ((t : Text) → in_use m' t ≡ in_use m t)

-- Taking a slot and giving it back leaves every count as it was.
release-take_slot : (m : InUse) (s : Text) → IsSlots m → SameSlots m (release (take_slot m s) s)
release-take_slot m s v =
    let v' = take_slot-IsSlots m s v in
    (
      release-IsSlots (take_slot m s) s v',
      λ t. in_use-release (take_slot m s) s t v' ∙ ground (arith, in_use-take_slot m s t),
    )

Held-slots :
    (w : World) (c : Caller) (tool args : Text) (rt : RoutedTool) (conn : Option ℕ) (s : State)
    (r : State × Answer)
    → Held w c tool args rt conn s r
    → r.0.slots ≡ s.slots
unfolding refuse
Held-slots w c tool args rt conn s _ (unpaid reason a h q) = refl
Held-slots w c tool args rt conn s _ (unwritten q f) = refl
Held-slots w c tool args rt conn s _ (left r q f fin) =
    (finish-Keeps w c tool rt conn (departed rt args (noted w c tool rt (paid w c tool s))) r
      fin).0.slots

View-slots :
    (w : World) (c : Caller) (tool args : Text) (s : State) (r : State × Answer)
    → IsSlots s.slots
    → View w c tool args s r
    → SameSlots s.slots r.0.slots
unfolding refuse
View-slots w c tool args s _ v (blocked e h) =
    subst (SameSlots s.slots) (sym (refuse_blocked-Keeps w c tool (target_of tool) e s).slots)
      (v, λ t. refl)
View-slots w c tool args s _ v (refused target reason a h n) = (v, λ t. refl)
View-slots w c tool args s _ v (held rt p) =
    let h =
      Held-slots w c tool args rt (conn_of w.conns rt.route.upstream)
        (with_slots s (take_slot s.slots c.identity.subject)) _
        (dispatch_held-Held w c tool args rt _ _) in
    subst (λ m. SameSlots s.slots (release m c.identity.subject)) (sym h)
      (release-take_slot s.slots c.identity.subject v)

-- Whatever becomes of a call, it ends with every subject's count of slots as it began, in a map that
-- still counts only calls in flight.
pub dispatch-slots :
    (w : World) (c : Caller) (tool args : Text) (s : State)
    → IsSlots s.slots
    → IsSlots (dispatch w c tool args s).0.slots
      × ((t : Text) → in_use (dispatch w c tool args s).0.slots t ≡ in_use s.slots t)
dispatch-slots w c tool args s v = View-slots w c tool args s _ v (dispatch-View w c tool args s)
