-- ===== src/Quota/Calls.antt =====
-- Histories of calls through the gate, and what the counters say of them.
use gatte.Base.{
  ℕ, ◌+◌, ◌≡◌, refl, ap, ◌∙◌, Bool, true, false, Text, contains, is_blank, if◌then◌else◌, List, [],
  ◌∷◌, err, arith, Bool-cases, inl, inr, map, select,
}
use gatte.Quota.{Time, Reservation, is_nil, is_zero_time}
use gatte.Quota.Plan.{Plan, charges, charge_of}
use gatte.Quota.Index.{IsPlan, charges-select}
use gatte.Quota.Store.{
  Key, Counters, Faults, StoreError, exhausted, invalid_reservation, failed, used, reserve,
}
use gatte.Quota.Store.Exact.{hits, refused, taken, reserve-Reserved}
use gatte.Quota.Gate.{Admission, admitted, admission, admit}

-- One call as it reaches the gate, with what the database does to it.
pub record Call : Type 0 where
  pub faults : Faults
  pub analyst : Text
  pub tool : Text
  pub now : Time

abbrev pub answer : Plan → Call → Counters → Counters × Admission
answer p c m = admit p c.faults c.analyst c.tool c.now m

abbrev pub is_admitted : Admission → Bool
is_admitted admitted = true
is_admitted _ = false

-- Calls in the order in which their transactions commit.
unfoldable pub run : Plan → List Call → Counters → Counters
run p [] m = m
run p (c ∷ cs) m = run p cs (answer p c m).0

abbrev pub charged_by : Plan → Call → Key → ℕ
charged_by p c k = hits c.analyst (charges p c.tool c.now) k

-- How many of the calls that were admitted are charged to a counter.
unfoldable pub spent : Plan → List Call → Counters → Key → ℕ
spent p [] m k = 0
spent p (c ∷ cs) m k =
    (if is_admitted (answer p c m).1 then charged_by p c k else 0) + spent p cs (answer p c m).0 k

is_nil→nil {ℓ} : {A : Type ℓ} (xs : List A) → is_nil xs ≡ true → xs ≡ []
is_nil→nil [] h = refl
is_nil→nil (x ∷ xs) h = cc

nil_no_charges :
    (p : Plan) (tool : Text) (now : Time)
    → IsPlan p
    → is_nil p.providers ≡ true
    → charges p tool now ≡ []
nil_no_charges p tool now v e =
    charges-select p tool now v
    ∙ ap (λ qs. map (λ q. charge_of q now) (select (λ q. contains q.tools tool) qs))
        (is_nil→nil p.providers e)

abbrev pub reservation_of : Plan → Call → Reservation
reservation_of p c = record { analyst = c.analyst; charges = charges p c.tool c.now }

-- The gate either leaves the counters alone, admitting only what costs nothing, or hands on the
-- answer of one reservation of all that the call costs.
pub data Answered (p : Plan) (c : Call) (m m' : Counters) (a : Admission) : Type 0 where
  untouched : m' ≡ m → (is_admitted a ≡ true → charges p c.tool c.now ≡ []) → Answered p c m m' a
  reserved :
      m' ≡ (reserve c.faults (reservation_of p c) m).0
      → a ≡ admission (reserve c.faults (reservation_of p c) m).1
      → Answered p c m m' a

pub admit-Answered :
    (p : Plan) (c : Call) (m : Counters)
    → IsPlan p
    → Answered p c m (answer p c m).0 (answer p c m).1
unfolding admit
admit-Answered p c m v = elim (Bool-cases (is_nil p.providers)) [
  | inl none_declared ↦
      rw none_declared (untouched refl (λ h. nil_no_charges p c.tool c.now v none_declared))
  | inr some_declared ↦ elim (Bool-cases (is_blank c.analyst)) [
    | inl nobody ↦ rw (some_declared, nobody) (untouched refl (λ h. cc))
    | inr analyst ↦ elim (Bool-cases (is_blank c.tool)) [
      | inl nothing ↦ rw (some_declared, analyst, nothing) (untouched refl (λ h. cc))
      | inr tool ↦ elim (Bool-cases (is_zero_time c.now)) [
        | inl no_clock ↦ rw (some_declared, analyst, tool, no_clock) (untouched refl (λ h. cc))
        | inr clock ↦ elim (Bool-cases (is_nil (charges p c.tool c.now))) [
          | inl costless ↦
              rw (some_declared, analyst, tool, clock, costless)
                (untouched refl (λ h. is_nil→nil (charges p c.tool c.now) costless))
          | inr costs ↦ rw (some_declared, analyst, tool, clock, costs) (reserved refl refl)
        ]
      ]
    ]
  ]
]

not_admitted : (e : StoreError) → is_admitted (admission (err e)) ≡ false
not_admitted (exhausted c) = refl
not_admitted (invalid_reservation es) = refl
not_admitted failed = refl

-- After a call each counter has grown by what the call is charged there if it was admitted, and not
-- at all otherwise.
used-answer :
    (p : Plan) (c : Call) (m : Counters) (k : Key)
    → IsPlan p
    → used (answer p c m).0 k
      ≡ used m k + (if is_admitted (answer p c m).1 then charged_by p c k else 0)
used-answer p c m k v = go _ _ (admit-Answered p c m v)
  where
    free :
        (b : Bool)
        → (b ≡ true → charges p c.tool c.now ≡ [])
        → used m k ≡ used m k + (if b then charged_by p c k else 0)
    free true h = rw (h refl) (unfold hits in omega arith)
    free false h = omega arith

    go :
        (m' : Counters) (a : Admission)
        → Answered p c m m' a
        → used m' k ≡ used m k + (if is_admitted a then charged_by p c k else 0)
    go m' a (untouched same h) = rw same (free (is_admitted a) h)
    go m' a (reserved same eq) = elim (reserve-Reserved c.faults (reservation_of p c) m) [
      | refused {e} kept bad ↦ rw (same, kept, eq, bad, not_admitted e) (omega arith)
      | taken good exact ↦ rw (same, eq, good) (exact k).0
    ]

-- The counters of a history say how many admitted calls are charged to each: no call is admitted
-- without being counted, no refused call is counted, and no count is lost.
pub used-run :
    (p : Plan) (calls : List Call) (m : Counters) (k : Key)
    → IsPlan p
    → used (run p calls m) k ≡ used m k + spent p calls m k
unfolding run spent
used-run p [] m k v = omega arith
used-run p (c ∷ cs) m k v = omega (arith, used-run p cs (answer p c m).0 k v, used-answer p c m k v)
