-- ===== src/Quota/Ledger.antt =====
-- What a limit bounds, over all histories of calls.
use gatte.Base.{
  ℕ, suc, ◌≡◌, refl, ◌∙◌, subst, Bool, true, ◌&&◌, Text, text_eq, text_eq_refl, contains, List, [],
  ◌∷◌, le_limit, ok, All, All-select, All-map, any_of_member, arith, Bool-cases, inl, inr, ◌⊎◌,
  Result-cases, any,
}
use gatte.Quota.{Time, Charge, Provider, Reservation, fits}
use gatte.Quota.Plan.{Plan, charges, charge_of, new_plan}
use gatte.Quota.Index.{IsPlan, charges-select, new_plan-IsPlan}
use gatte.Quota.Store.{Key, Counters, Faults, key_eq, used, increment, key_of, debit_all, reserve}
use gatte.Quota.Store.Exact.{key_eq_iff, used-increment, debited, reserve_ok, reserve_err}
use gatte.Quota.Gate.{Admission}
use gatte.Quota.Calls.{
  Call, answer, run, spent, reservation_of, Answered, untouched, reserved, admit-Answered, used-run,
}

-- A limit on each counter.
abbrev Within : (Key → ℕ → Bool) → Counters → Type 0
Within lim m = (k : Key) → (used m k ≡ 0) ⊎ (lim k (used m k) ≡ true)

abbrev IsBacked : (Key → ℕ → Bool) → Text → Charge → Type 0
IsBacked lim analyst c = (n : ℕ) → fits c n ≡ true → lim (key_of analyst c) n ≡ true

increment-Within :
    (lim : Key → ℕ → Bool) (k : Key) (m : Counters)
    → lim k (used (increment k m) k) ≡ true
    → Within lim m
    → Within lim (increment k m)
increment-Within lim k m top w j = elim (Bool-cases (key_eq k j)) [
  | inl same ↦
      inr (subst (λ i. lim i (used (increment k m) i) ≡ true) ((key_eq_iff k j).0 same) top)
  | inr other ↦ rw (used-increment k j m, other) (w j)
]

debit_all-Within :
    (lim : Key → ℕ → Bool) (f : Faults) (i : ℕ) (analyst : Text) (cs : List Charge) (m : Counters)
    {m' : Counters}
    → All (IsBacked lim analyst) cs
    → Within lim m
    → debit_all f i analyst cs m ≡ ok m'
    → Within lim m'
debit_all-Within lim f i analyst [] m {m'} b w e =
    let same : m ≡ m' = unfold debit_all in cc in subst (Within lim) same w
debit_all-Within lim f i analyst (c ∷ cs) m b w e =
    let (fit, rest) = debited f i analyst c cs m e in
    debit_all-Within lim f (suc i) analyst cs (increment (key_of analyst c) m) b.1
      (increment-Within lim (key_of analyst c) m (b.0 _ fit) w) rest

reserve-Within :
    (lim : Key → ℕ → Bool) (f : Faults) (r : Reservation) (m : Counters)
    → All (IsBacked lim r.analyst) r.charges
    → Within lim m
    → Within lim (reserve f r m).0
reserve-Within lim f r m b w = elim (Result-cases (reserve f r m).1) [
  | inl (e, bad) ↦ rw (reserve_err f r m bad) w
  | inr (u, good) ↦ debit_all-Within lim f 0 r.analyst r.charges m b w (reserve_ok f r m good).1
]

-- A declared account of the counter's name allows so many.
abbrev pub allowed : Plan → Key → ℕ → Bool
allowed p k n = any (λ q. text_eq q.name k.provider && le_limit n q.limit) p.providers

charges-IsBacked :
    (p : Plan) (analyst tool : Text) (now : Time)
    → IsPlan p
    → All (IsBacked (allowed p) analyst) (charges p tool now)
unfolding charge_of fits
charges-IsBacked p analyst tool now v = rw (charges-select p tool now v) (
    All-map Counts (IsBacked (allowed p) analyst) (λ q. charge_of q now) _
      (λ q member n fit.
        member (λ o. text_eq o.name q.name && le_limit n o.limit)
          (ground (arith, fit, text_eq_refl q.name)))
      (All-select Counts (λ q. contains q.tools tool) p.providers (any_of_member p.providers)))
  where
    Counts : Provider → Type 0
    Counts q = (test : Provider → Bool) → test q ≡ true → any test p.providers ≡ true

answer-Within :
    (p : Plan) (c : Call) (m : Counters)
    → IsPlan p
    → Within (allowed p) m
    → Within (allowed p) (answer p c m).0
answer-Within p c m v w = go _ _ (admit-Answered p c m v)
  where
    go : (m' : Counters) (a : Admission) → Answered p c m m' a → Within (allowed p) m'
    go m' a (untouched same h) = rw same w
    go m' a (reserved same eq) = rw same (
        reserve-Within (allowed p) c.faults (reservation_of p c) m
          (charges-IsBacked p c.analyst c.tool c.now v) w)

run-Within :
    (p : Plan) (calls : List Call) (m : Counters)
    → IsPlan p
    → Within (allowed p) m
    → Within (allowed p) (run p calls m)
unfolding run
run-Within p [] m v w = w
run-Within p (c ∷ cs) m v w = run-Within p cs (answer p c m).0 v (answer-Within p c m v w)

-- With a plan that `new_plan` returned and counters that start empty, after any calls by any analysts
-- in any order, with any database faults, the calls that were admitted and are charged to one
-- analyst, account and window are none, or at most the limit of a declared account of that name.
pub spent-allowed :
    (providers : List Provider) (free_tools : List Text) (p : Plan) (calls : List Call) (k : Key)
    → new_plan providers free_tools ≡ ok p
    → (spent p calls [] k ≡ 0) ⊎ (allowed p k (spent p calls [] k) ≡ true)
spent-allowed providers free_tools p calls k e =
    let v = new_plan-IsPlan providers free_tools e in
    let counted : used (run p calls []) k ≡ spent p calls [] k =
      used-run p calls [] k v ∙ unfold used in omega arith in
    let bounded = run-Within p calls [] v (λ j. inl (unfold used in refl)) k in
    rw (← counted) bounded
