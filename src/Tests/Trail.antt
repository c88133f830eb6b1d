-- ===== src/Tests/Trail.antt =====
-- The pages of the audit trail at concrete inputs.
use gatte.Base.{
  ◌≡◌, refl, ℕ, false, List, [], ◌∷◌, Text, codes, ok, pos, arith, text_eq, take, ltb, length,
}
use gatte.Quota.{Time}
use gatte.Audit.Table.{StoredRow}
use gatte.Audit.Pages.{TrailQuery, page, is_selected, in_window}
use gatte.Audit.Pages.Found.{found, page-found}
use gatte.Tests.Audit.{go, at}

abbrev call_at : ℕ → ℕ → Text → StoredRow
call_at n instant subject = record {
  id = n;
  analyst_identity = subject;
  tool = codes "ti.ip";
  timestamp = instant ∷ [];
  target_upstream = codes "ti";
  outcome = codes "allowed";
  reason = [];
  source_address = codes "10.0.0.1";
  analyst_name = [];
  prev_hash = [];
  hash = [];
}

-- The rows 3 and 4 are deleted, and the clock went back before the newest row.
abbrev rows : List StoredRow
rows =
    call_at 6 5 (codes "ana")
    ∷ call_at 5 9 (codes "bob")
    ∷ call_at 2 8 (codes "ana")
    ∷ call_at 1 7 (codes "ana")
    ∷ []

abbrev query : TrailQuery
query = record {
  before = pos 0;
  since = at 0;
  until = at 0;
  subject = codes "ana";
  outcome = [];
  source = [];
  tool = [];
  server = [];
  limit = pos 2;
}

abbrev times : StoredRow → Time
times row = at (first row.timestamp)
  where
    first : Text → ℕ
    first [] = 0
    first (n ∷ s) = n

page-found_example :
    page go false query rows
    ≡ ok (take 2 (found query times rows), ltb 2 (length (found query times rows)))
page-found_example =
    page-found go query times rows 2 (omega arith, (omega arith, (omega arith, (omega arith, tt))))
      (refl, (refl, (refl, (refl, tt)))) refl

two_of_three : length (found query times rows) ≡ 3
unfolding is_selected in_window text_eq
two_of_three = refl
