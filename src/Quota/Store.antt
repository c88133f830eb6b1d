-- ===== src/Quota/Store.antt =====
-- Reserve, debit and SpentBy of internal/quota/sqlite/sqlite.go over the table of counters, whose key
-- is the analyst, the account and the text of the window's start; that text is the time with its
-- offset. A database call fails where `Faults` says so; a transaction that is not committed leaves
-- the table as it was.
pub mod Exact
use gatte.Base.{
  ℕ, suc, ◌+◌, Bool, true, false, ◌&&◌, ◌||◌, not, Text, text_eq, if◌then◌else◌, List, [], ◌∷◌,
  ◌==◌, ℤ_eq, pos, Result, ok, err, ◌>>=◌,
}
use gatte.Quota.{Time, Charge, Reservation, ReservationError, fits, validate_reservation, is_nil}

pub record Key : Type 0 where
  pub analyst : Text
  pub provider : Text
  pub window : Time

abbrev pub Counters : Type 0
Counters = List (Key × ℕ)

unfoldable pub time_eq : Time → Time → Bool
time_eq a b = a.instant == b.instant && ℤ_eq a.offset b.offset

unfoldable pub key_eq : Key → Key → Bool
unfolding text_eq time_eq
key_eq a b =
    text_eq a.analyst b.analyst && (text_eq a.provider b.provider && time_eq a.window b.window)

unfoldable pub used : Counters → Key → ℕ
unfolding key_eq
used [] k = 0
used ((j, n) ∷ m) k = if key_eq j k then n else used m k

-- INSERT ... ON CONFLICT DO UPDATE SET used = used + 1.
unfoldable pub increment : Key → Counters → Counters
unfolding key_eq
increment k [] = (k, 1) ∷ []
increment k ((j, n) ∷ m) = if key_eq j k then (j, n + 1) ∷ m else (j, n) ∷ increment k m

pub record Faults : Type 0 where
  pub begin_fails : Bool
  pub debit_fails : ℕ → Bool
  pub commit_fails : Bool

pub data StoreError : Type 0 where
  invalid_reservation : List ReservationError → StoreError
  exhausted : Charge → StoreError
  failed : StoreError

abbrev pub key_of : Text → Charge → Key
key_of analyst c = record { analyst = analyst; provider = c.provider; window = c.window_start }

-- The statement and the counter that it returns; its number is the place of the charge in the loop.
unfoldable pub debit : Faults → ℕ → Text → Charge → Counters → Result StoreError (Counters × ℕ)
unfolding increment used
debit f i analyst c m =
    if f.debit_fails i
    then err failed
    else let m' = increment (key_of analyst c) m in ok (m', used m' (key_of analyst c))

-- The loop over the charges, inside the transaction.
unfoldable pub debit_all : Faults → ℕ → Text → List Charge → Counters → Result StoreError Counters
unfolding debit fits
debit_all f i analyst [] m = ok m
debit_all f i analyst (c ∷ cs) m = do
  (m', n) ← debit f i analyst c m
  let rest = debit_all f (suc i) analyst cs m'
  if not (fits c n) then err (exhausted c) else rest

-- The table after the call, and its error if there is one.
unfoldable pub reserve : Faults → Reservation → Counters → Counters × Result StoreError (Unit {0})
unfolding validate_reservation debit_all
reserve f r m = elim (validate_reservation r) [
  | e ∷ es ↦ (m, err (invalid_reservation (e ∷ es)))
  | [] ↦ if f.begin_fails then (m, err failed) else elim (debit_all f 0 r.analyst r.charges m) [
    | err e ↦ (m, err e)
    | ok m' ↦ if f.commit_fails then (m, err failed) else (m', ok tt)
  ]
]

-- One analyst's counts, 0 where there is no row.
unfoldable pub spent_by : Text → List Charge → Counters → List ℕ
unfolding used
spent_by analyst [] m = []
spent_by analyst (c ∷ cs) m =
    used m (record {
      analyst = analyst;
      provider = c.provider;
      window = record { instant = c.window_start.instant; offset = pos 0 };
    })
    ∷ spent_by analyst cs m
