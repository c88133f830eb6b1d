-- ===== src/Gateway/Slots/InFlight.antt =====
-- Calls that begin and end in any order, and what the map of slots says of them.
use gatte.Base.{
  ℕ, ◌+◌, ◌-◌, ◌≤◌, ◌<◌, ◌≡◌, refl, sym, ap, subst, ◌∙◌, false, Text, text_eq, text_eq_iff,
  if◌then◌else◌, List, [], ◌∷◌, ◌++◌, some, ℤ, pos, negsuc, pos_part, leb, arith, inl, inr,
  Bool-cases,
}
use gatte.Gateway.Slots.{InUse, in_use, take_slot, at_limit, acquire, release}

-- Every entry counts a call, and no subject has two entries.
unfoldable pub IsSlots : InUse → Type 0
IsSlots [] = Unit
IsSlots ((s, n) ∷ m) = (0 < n) × (in_use m s ≡ 0) × IsSlots m

-- How many of the calls in flight are the subject's.
unfoldable pub count : List Text → Text → ℕ
unfolding text_eq
count [] subject = 0
count (s ∷ live) subject = (if text_eq s subject then 1 else 0) + count live subject

-- A call begins where it gets a slot, and any call in flight can be the next to end.
pub data Reaches (max : ℤ) : InUse → List Text → Type 0 where
  idle : Reaches max [] []
  begins :
      (s : Text) (m m' : InUse) (live : List Text)
      → Reaches max m live
      → acquire max m s ≡ some m'
      → Reaches max m' (s ∷ live)
  ends :
      (s : Text) (m : InUse) (a b : List Text)
      → Reaches max m (a ++ s ∷ b)
      → Reaches max (release m s) (a ++ b)

pub in_use-take_slot :
    (m : InUse) (s t : Text)
    → in_use (take_slot m s) t ≡ (if text_eq s t then 1 else 0) + in_use m t
unfolding in_use take_slot
in_use-take_slot [] s t = ground arith
in_use-take_slot ((k, n) ∷ m) s t =
    ground (arith, in_use-take_slot m s t, text_eq_iff k s, text_eq_iff k t, text_eq_iff s t)

pub take_slot-IsSlots : (m : InUse) (s : Text) → IsSlots m → IsSlots (take_slot m s)
unfolding IsSlots take_slot in_use
take_slot-IsSlots [] s v = (omega arith, refl, tt)
take_slot-IsSlots ((k, n) ∷ m) s v = elim (Bool-cases (text_eq k s)) [
  | inl e ↦ rw e (omega (arith, v.0), v.1, v.2)
  | inr e ↦ rw e (
    v.0,
    ground (arith, in_use-take_slot m s k, v.1, text_eq_iff s k, text_eq_iff k s),
    take_slot-IsSlots m s v.2,
  )
]

pub in_use-release :
    (m : InUse) (s t : Text)
    → IsSlots m
    → in_use (release m s) t ≡ in_use m t - (if text_eq s t then 1 else 0)
unfolding in_use release IsSlots
in_use-release [] s t v = ground arith
in_use-release ((k, n) ∷ m) s t v =
    ground (arith, in_use-release m s t v.2, text_eq_iff k s, text_eq_iff k t, text_eq_iff s t)

pub release-IsSlots : (m : InUse) (s : Text) → IsSlots m → IsSlots (release m s)
unfolding IsSlots release in_use
release-IsSlots [] s v = tt
release-IsSlots ((k, n) ∷ m) s v = elim (Bool-cases (text_eq k s)) [
  | inr e ↦ rw e (v.0, ground (arith, in_use-release m s k v.2, v.1), release-IsSlots m s v.2)
  | inl e ↦ rw e (elim (Bool-cases (leb n 1)) [
    | inl l ↦ rw l v.2
    | inr l ↦ rw l (ground (arith, v.0), v.1, v.2)
  ])
]

count-append : (a b : List Text) (t : Text) → count (a ++ b) t ≡ count a t + count b t
unfolding count
count-append [] b t = omega arith
count-append (s ∷ a) b t = ground (arith, count-append a b t)

under_limit : (n : ℕ) (max : ℤ) → at_limit n max ≡ false → n < pos_part max
under_limit n (pos l) h = ground arith
under_limit n (negsuc l) h = ground arith

acquire_taken :
    (max : ℤ) (m m' : InUse) (s : Text)
    → acquire max m s ≡ some m'
    → (m' ≡ take_slot m s) × (in_use m s < pos_part max)
unfolding acquire
acquire_taken max m m' s h = elim (Bool-cases (at_limit (in_use m s) max)) [
  | inl e ↦ ground (arith, e)
  | inr e ↦ (ground (arith, e), under_limit (in_use m s) max e)
]

-- However calls begin and end, the count of a subject is the number of their calls in flight, that
-- number never exceeds the limit, and the map keeps an entry only for a subject with a call in flight.
pub Reaches-counts :
    (max : ℤ) (m : InUse) (live : List Text)
    → Reaches max m live
    → IsSlots m
      × ((s : Text) → in_use m s ≡ count live s)
      × ((s : Text) → count live s ≤ pos_part max)
unfolding IsSlots count in_use acquire
Reaches-counts max _ _ idle = (tt, λ s. refl, λ s. omega arith)
Reaches-counts max _ _ (begins s m m' live r h) =
    let (v, c, b) = Reaches-counts max m live r in
    let (taken, room) = acquire_taken max m m' s h in
    (
      subst IsSlots (sym taken) (take_slot-IsSlots m s v),
      λ t. ap (λ u. in_use u t) taken ∙ ground (arith, in_use-take_slot m s t, c t),
      λ t. ground (arith, room, b t, c t, c s, text_eq_iff s t),
    )
Reaches-counts max _ _ (ends s m a b r) =
    let (v, c, l) = Reaches-counts max m (a ++ s ∷ b) r in
    (
      release-IsSlots m s v,
      λ t.
          ground (arith, in_use-release m s t v, c t, count-append a b t, count-append a (s ∷ b) t),
      λ t. ground (arith, l t, count-append a b t, count-append a (s ∷ b) t),
    )
