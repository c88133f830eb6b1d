-- ===== src/Quota/Store/Exact.antt =====
-- What a reservation does to the counters: all of its debits, or nothing.
use gatte.Base.{
  ℕ, suc, ◌+◌, ◌≤◌, ◌≡◌, ◌↔◌, refl, true, Text, text_eq_iff, contains, when-append-nil, is_blank,
  if◌then◌else◌, List, [], ◌∷◌, ℤ_eq_iff, Result, ok, err, arith, inl, inr, Result-cases,
}
use gatte.Quota.{
  Charge, Reservation, validate_reservation, charge_errors, fits, is_nil, no_charges, analyst_empty,
}
use gatte.Quota.Store.{
  Key, Counters, Faults, StoreError, time_eq, key_eq, used, increment, key_of, debit, debit_all,
  reserve,
}

pub key_eq_iff : (a b : Key) → (key_eq a b ≡ true) ↔ (a ≡ b)
unfolding key_eq time_eq
key_eq_iff a b = (
  λ h. ground (
    arith,
    text_eq_iff a.analyst b.analyst,
    text_eq_iff a.provider b.provider,
    ℤ_eq_iff a.window.offset b.window.offset,
  ),
  λ e. ground (
    arith,
    text_eq_iff a.analyst b.analyst,
    text_eq_iff a.provider b.provider,
    ℤ_eq_iff a.window.offset b.window.offset,
  ),
)

pub used-increment :
    (k j : Key) (m : Counters)
    → used (increment k m) j ≡ (if key_eq k j then used m j + 1 else used m j)
unfolding used increment
used-increment k j [] = ground arith
used-increment k j ((i, n) ∷ m) =
    ground (arith, key_eq_iff i k, key_eq_iff i j, key_eq_iff k j, used-increment k j m)

-- How many of the charges debit a counter.
unfoldable pub hits : Text → List Charge → Key → ℕ
hits analyst [] k = 0
hits analyst (c ∷ cs) k =
    if key_eq (key_of analyst c) k then suc (hits analyst cs k) else hits analyst cs k

-- A loop that goes through the first charge: the counter after its debit fits the limit.
pub debited :
    (f : Faults) (i : ℕ) (analyst : Text) (c : Charge) (cs : List Charge) (m : Counters)
    {m' : Counters}
    → debit_all f i analyst (c ∷ cs) m ≡ ok m'
    → let m1 = increment (key_of analyst c) m in
      (fits c (used m1 (key_of analyst c)) ≡ true) × (debit_all f (suc i) analyst cs m1 ≡ ok m')
unfolding debit_all debit
debited f i analyst c cs m e = (ground arith, ground arith)

debit_all-used :
    (f : Faults) (i : ℕ) (analyst : Text) (cs : List Charge) (m : Counters) {m' : Counters}
    (k : Key)
    → debit_all f i analyst cs m ≡ ok m'
    → used m' k ≡ used m k + hits analyst cs k
unfolding hits
debit_all-used f i analyst [] m {m'} k e =
    let same : m ≡ m' = unfold debit_all in cc in rw (← same) (omega arith)
debit_all-used f i analyst (c ∷ cs) m {m'} k e =
    let (fit, rest) = debited f i analyst c cs m e in
    let ih = debit_all-used f (suc i) analyst cs (increment (key_of analyst c) m) k rest in
    ground (arith, ih, used-increment (key_of analyst c) k m)

seen_not_hit :
    (analyst : Text) (seen : List Text) (cs : List Charge) (k : Key)
    → charge_errors seen cs ≡ []
    → contains seen k.provider ≡ true
    → hits analyst cs k ≡ 0
unfolding charge_errors contains hits
seen_not_hit analyst seen [] k e s = refl
seen_not_hit analyst seen (c ∷ cs) k e s = ground (
  arith,
  key_eq_iff (key_of analyst c) k,
  text_eq_iff c.provider k.provider,
  seen_not_hit analyst (c.provider ∷ seen) cs k,
)

hits-le-one :
    (analyst : Text) (seen : List Text) (cs : List Charge) (k : Key)
    → charge_errors seen cs ≡ []
    → hits analyst cs k ≤ 1
unfolding charge_errors contains hits
hits-le-one analyst seen [] k e = omega arith
hits-le-one analyst seen (c ∷ cs) k e = ground (
  arith,
  key_eq_iff (key_of analyst c) k,
  text_eq_iff c.provider k.provider,
  seen_not_hit analyst (c.provider ∷ seen) cs k,
  hits-le-one analyst (c.provider ∷ seen) cs k,
)

pub reserve_err :
    (f : Faults) (r : Reservation) (m : Counters) {e : StoreError}
    → (reserve f r m).1 ≡ err e
    → (reserve f r m).0 ≡ m
unfolding reserve
reserve_err f r m h = ground arith

pub reserve_ok :
    (f : Faults) (r : Reservation) (m : Counters) {u : Unit {0}}
    → (reserve f r m).1 ≡ ok u
    → (validate_reservation r ≡ []) × (debit_all f 0 r.analyst r.charges m ≡ ok (reserve f r m).0)
unfolding reserve
reserve_ok f r m h = (ground arith, ground arith)

valid-charges : (r : Reservation) → validate_reservation r ≡ [] → charge_errors [] r.charges ≡ []
unfolding validate_reservation
valid-charges r h =
    (when-append-nil (is_nil r.charges) no_charges _
      (when-append-nil (is_blank r.analyst) analyst_empty _ h).1).1

-- What a call of `reserve` can end in.
pub data Reserved (r : Reservation) (m m' : Counters) (answer : Result StoreError (Unit {0}))
    : Type 0 where
  refused : {e : StoreError} → m' ≡ m → answer ≡ err e → Reserved r m m' answer
  taken :
      answer ≡ ok tt
      → ((k : Key)
          → (used m' k ≡ used m k + hits r.analyst r.charges k) × (hits r.analyst r.charges k ≤ 1))
      → Reserved r m m' answer

-- A reservation takes all of its charges or none, whatever fails: on an error the table is the one
-- before; otherwise each account that is charged has one more for this analyst and window, and every
-- other counter is as before.
pub reserve-Reserved :
    (f : Faults) (r : Reservation) (m : Counters) → Reserved r m (reserve f r m).0 (reserve f r m).1
reserve-Reserved f r m = elim (Result-cases (reserve f r m).1) [
  | inl (e, bad) ↦ refused (reserve_err f r m bad) bad
  | inr (u, good) ↦
      let (valid, done) = reserve_ok f r m good in
      taken good (λ k. (
        debit_all-used f 0 r.analyst r.charges m k done,
        hits-le-one r.analyst [] r.charges k (valid-charges r valid),
      ))
]
