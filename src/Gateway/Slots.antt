-- ===== src/Gateway/Slots.antt =====
-- callSlots of internal/gateway/resilience.go: calls in flight per subject. The map is an association
-- list, where a missing key reads as 0.
pub mod InFlight
use gatte.Base.{
  ℕ, suc, ◌-◌, Bool, true, false, Text, text_eq, if◌then◌else◌, List, [], ◌∷◌, Option, none, some,
  ℤ, pos, negsuc, leb,
}

abbrev pub InUse : Type 0
InUse = List (Text × ℕ)

unfoldable pub in_use : InUse → Text → ℕ
unfolding text_eq
in_use [] subject = 0
in_use ((s, n) ∷ m) subject = if text_eq s subject then n else in_use m subject

-- `s.inUse[subject]++`.
unfoldable pub take_slot : InUse → Text → InUse
unfolding text_eq
take_slot [] subject = (subject, 1) ∷ []
take_slot ((s, n) ∷ m) subject =
    if text_eq s subject then (s, suc n) ∷ m else (s, n) ∷ take_slot m subject

-- `n >= max`.
abbrev pub at_limit : ℕ → ℤ → Bool
at_limit n (pos l) = leb l n
at_limit n (negsuc l) = true

-- `none` where the call is refused.
unfoldable pub acquire : ℤ → InUse → Text → Option InUse
unfolding in_use take_slot
acquire max m subject = if at_limit (in_use m subject) max then none else some (take_slot m subject)

-- The body of the function that `acquire` returns, which runs at most once: the count goes down, and
-- an entry that reaches 0 is deleted. A missing key would count down from 0 and be deleted again.
unfoldable pub release : InUse → Text → InUse
unfolding text_eq
release [] subject = []
release ((s, n) ∷ m) subject =
    if text_eq s subject then if leb n 1 then m else (s, n - 1) ∷ m else (s, n) ∷ release m subject
