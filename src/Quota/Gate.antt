-- ===== src/Quota/Gate.antt =====
-- Admit of internal/quota/quota.go over the SQLite store.
use gatte.Base.{Text, is_blank, if◌then◌else◌, Result, ok, err}
use gatte.Quota.{Time, Charge, is_zero_time, is_nil}
use gatte.Quota.Plan.{Plan, charges}
use gatte.Quota.Store.{
  Counters, Faults, StoreError, exhausted, invalid_reservation, failed, reserve,
}

pub data Admission : Type 0 where
  admitted : Admission
  refused_exhausted : Charge → Admission
  refused_unavailable : Admission

-- The `switch` on the store's error.
abbrev pub admission : Result StoreError (Unit {0}) → Admission
admission (ok u) = admitted
admission (err (exhausted c)) = refused_exhausted c
admission (err (invalid_reservation es)) = refused_unavailable
admission (err failed) = refused_unavailable

unfoldable pub admit : Plan → Faults → Text → Text → Time → Counters → Counters × Admission
unfolding is_blank charges reserve
admit p f analyst tool now m =
    if is_nil p.providers
    then (m, admitted)
    else if is_blank analyst
    then (m, refused_unavailable)
    else if is_blank tool
    then (m, refused_unavailable)
    else if is_zero_time now
    then (m, refused_unavailable)
    else let cs = charges p tool now in
      if is_nil cs
      then (m, admitted)
      else let (m', r) = reserve f (record { analyst = analyst; charges = cs }) m in
        (m', admission r)
