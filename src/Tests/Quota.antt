-- ===== src/Tests/Quota.antt =====
-- Accounts, charges and counters at concrete inputs.
use gatte.Base.{
  sort, text_le, ℕ, ◌+◌, ◌≡◌, ◌≤◌, ◌<◌, ◌⊎◌, refl, true, false, codes, List, [], ◌∷◌, select, map,
  contains, ok, pos,
}
use gatte.Quota.{Time, Provider, Charge, Reservation, validate_provider, window_start}
use gatte.Quota.Plan.{Plan, new_plan, charge_of, charges}
use gatte.Quota.Store.{Key, Faults, reserve, used, key_of}
use gatte.Quota.Store.Exact.{hits, Reserved, reserve-Reserved}
use gatte.Quota.Gate.{refused_exhausted, admit}
use gatte.Quota.Index.{IsPlan, new_plan-IsPlan, charges-new_plan}
use gatte.Quota.Calls.{Call, run, spent, answer, used-run}
use gatte.Quota.Ledger.{allowed, spent-allowed}
use gatte.Quota.Windows.{window_start_lem}

abbrev pub account : Provider
account = record {
  name = codes "virustotal";
  upstream = codes "ti";
  limit = pos 2;
  window = pos 100;
  tools = codes "ti.lookup" ∷ [];
}

abbrev pub plan : Plan
plan = record {
  providers = account ∷ [];
  by_tool = (codes "ti.lookup", account ∷ []) ∷ [];
  free = [];
}

pub plan_is_built : new_plan (account ∷ []) [] ≡ ok plan
unfolding new_plan
plan_is_built = refl

abbrev at : ℕ → Time
at n = record { instant = n; offset = pos 7200 }

abbrev pub no_faults : Faults
no_faults = record { begin_fails = false; debit_fails = λ i. false; commit_fails = false }

abbrev call : ℕ → Call
call n = record { faults = no_faults; analyst = codes "a1"; tool = codes "ti.lookup"; now = at n }

-- Three calls in one window and one in the next.
abbrev calls : List Call
calls = call 210 ∷ call 220 ∷ call 230 ∷ call 310 ∷ []

abbrev charge : Charge
charge = record {
  provider = codes "virustotal";
  limit = pos 2;
  window_start = record { instant = 200; offset = pos 0 };
  window_end = record { instant = 300; offset = pos 0 };
}

abbrev key : Key
key = key_of (codes "a1") charge

third_call_is_refused : (answer plan (call 230) ((key, 2) ∷ [])).1 ≡ refused_exhausted charge
unfolding admit
third_call_is_refused = refl

two_are_spent : spent plan calls [] key ≡ 2
unfolding spent admit hits
two_are_spent = refl

plan-IsPlan : IsPlan plan
plan-IsPlan = new_plan-IsPlan (account ∷ []) [] plan_is_built

spent-allowed_example :
    (spent plan calls [] key ≡ 0) ⊎ (allowed plan key (spent plan calls [] key) ≡ true)
unfolding new_plan
spent-allowed_example = spent-allowed (account ∷ []) [] plan calls key refl

used-run_example :
    used (run plan calls ((key, 1) ∷ [])) key
    ≡ used ((key, 1) ∷ []) key + spent plan calls ((key, 1) ∷ []) key
used-run_example = used-run plan calls ((key, 1) ∷ []) key plan-IsPlan

abbrev reservation : Reservation
reservation = record { analyst = codes "a1"; charges = charge ∷ [] }

reserve-Reserved_example :
    Reserved reservation []
      (reserve no_faults reservation []).0
      (reserve no_faults reservation []).1
reserve-Reserved_example = reserve-Reserved no_faults reservation []

charges-new_plan_example :
    charges plan (codes "ti.lookup") (at 210)
    ≡ map
        (λ q. charge_of q (at 210))
        (select
          (λ q. contains q.tools (codes "ti.lookup"))
          (sort (λ a b. text_le a.name b.name) (account ∷ [])))
charges-new_plan_example =
    charges-new_plan (account ∷ []) [] (codes "ti.lookup") (at 210) plan_is_built

account_valid : validate_provider account ≡ []
unfolding validate_provider
account_valid = refl

window_start_lem_example :
    let s = (charge_of account (at 210)).window_start in
    let e = (charge_of account (at 210)).window_end in
    (s.instant ≤ 210)
    × (210 < e.instant)
    × (s.offset ≡ pos 0)
    × (s.instant ≤ 299 → 299 < e.instant → window_start account (at 299) ≡ s)
window_start_lem_example = window_start_lem account account_valid (at 210) (at 299)
