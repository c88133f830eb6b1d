-- ===== src/Quarantine/Store/Bulk/Ready.antt =====
-- The tools of a review set, as ApproveReviewSet reads them from the rows.
use gatte.Base.{
  ◌≡◌, refl, sym, ap, subst, ◌∙◌, ℕ, Bool, List, [], ◌∷◌, map, Text, text_eq, ok, inl, inr, All,
  All-select, All-sort, Bool-cases, Result-cases, arith, select,
}
use gatte.Quarantine.{Tool, approved_fingerprint}
use gatte.Quarantine.Review.{Approval, approved_set, approve_all, mine, review_set}
use gatte.Quarantine.Store.{Shelf, scan_tool}
use gatte.Quarantine.Store.Rows.{IsKeyed}
use gatte.Quarantine.Store.Sets.{list_tools, scan_all}
use gatte.Quarantine.Store.Bulk.Keys.{IsFound, IsKeyed-found, IsKeyed-select, IsKeyed-sort}

abbrev pub IsScanned : Tool → Type 0
IsScanned t = scan_tool t ≡ ok t

-- What is true of the tools of a set before they are approved.
pub record IsReady (s : Shelf) (ts : List Tool) : Type 0 where
  pub keyed : IsKeyed ts
  pub found : All (IsFound s.tools) ts
  pub scans : All IsScanned ts

abbrev pub IsMade : ℕ → Approval → Type 0
IsMade now a = approved_fingerprint a.before a.before.observed_hash now ≡ ok a.after

abbrev pub befores : List Approval → List Tool
befores approvals = map (λ a. a.before) approvals

approve_all-IsMade :
    (now : ℕ) (ts : List Tool) (approvals : List Approval)
    → approve_all ts now ≡ ok approvals
    → (befores approvals ≡ ts) × All (IsMade now) approvals
unfolding approve_all
approve_all-IsMade now [] approvals e =
    let none_left : [] ≡ approvals = ground (arith, e) in
    subst (λ xs. (befores xs ≡ []) × All (IsMade now) xs) none_left (refl, tt)
approve_all-IsMade now (t ∷ ts) approvals e =
    elim (Result-cases (approved_fingerprint t t.observed_hash now)) [
      | inl (x, refused) ↦ absurd (ground (arith, refused, e))
      | inr (after, done) ↦ elim (Result-cases (approve_all ts now)) [
        | inl (x, refused) ↦ absurd (ground (arith, done, refused, e))
        | inr (rest, more) ↦
            let ih = approve_all-IsMade now ts rest more in
            let made : record { before = t; after = after } ∷ rest ≡ approvals =
              ground (arith, done, more, e) in
            subst (λ xs. (befores xs ≡ t ∷ ts) × All (IsMade now) xs) made
              (ap (λ xs. t ∷ xs) ih.0, (done, ih.1))
      ]
    ]

scan_tool_same : (t u : Tool) → scan_tool t ≡ ok u → t ≡ u
unfolding scan_tool
scan_tool_same t u e = ground (arith, e)

scan_all_same : (ts out : List Tool) → scan_all ts ≡ ok out → (out ≡ ts) × All IsScanned ts
unfolding scan_all
scan_all_same [] out e = (ground (arith, e), tt)
scan_all_same (t ∷ ts) out e = elim (Result-cases (scan_tool t)) [
  | inl (x, refused) ↦ absurd (ground (arith, refused, e))
  | inr (u, scans) ↦ elim (Result-cases (scan_all ts)) [
    | inl (x, refused) ↦ absurd (ground (arith, scans, refused, e))
    | inr (rest, more) ↦
        let ih = scan_all_same ts rest more in
        let same = scan_tool_same t u scans in
        let made : u ∷ rest ≡ out = ground (arith, scans, more, e) in
        (
          sym made ∙ ap (λ v. v ∷ rest) (sym same) ∙ ap (λ xs. t ∷ xs) ih.0,
          (scans ∙ ap ok (sym same), ih.1),
        )
  ]
]

mine_same :
    (server : Text) (ts out : List Tool)
    → mine server ts ≡ ok out
    → out ≡ select (λ t. text_eq t.server_name server) ts
unfolding mine
mine_same server [] out e = ground (arith, e)
mine_same server (t ∷ ts) out e = elim (Result-cases (mine server ts)) [
  | inl (x, refused) ↦ absurd (ground (arith, refused, e))
  | inr (rest, more) ↦
      let ih = mine_same server ts rest more in
      elim (Bool-cases (text_eq t.server_name server)) [
        | inl own ↦ rw own (ground (arith, own, more, e, ih))
        | inr other ↦ rw other (ground (arith, other, more, e, ih))
      ]
]

pub approved_set-IsMade :
    (sha256 : Text → Text) (server : Text) (tools : List Tool) (shown : Text) (now : ℕ)
    (approvals : List Approval)
    → approved_set sha256 server tools shown now ≡ ok approvals
    → (befores approvals ≡ review_set (select (λ t. text_eq t.server_name server) tools))
      × All (IsMade now) approvals
unfolding approved_set
approved_set-IsMade sha256 server tools shown now approvals e =
    elim (Result-cases (mine server tools)) [
      | inl (x, refused) ↦ absurd (ground (arith, refused, e))
      | inr (own, mine_ok) ↦
          let made : approve_all (review_set own) now ≡ ok approvals = ground (arith, mine_ok, e) in
          let all = approve_all-IsMade now (review_set own) approvals made in
          (all.0 ∙ ap review_set (mine_same server tools own mine_ok), all.1)
    ]

-- The keys, the rows and their state survive the selections and sorts of the list and of the set.
pub IsReady-select :
    (s : Shelf) (p : Tool → Bool) (ts : List Tool) → IsReady s ts → IsReady s (select p ts)
IsReady-select s p ts r = record {
  keyed = IsKeyed-select p ts r.keyed;
  found = All-select (IsFound s.tools) p ts r.found;
  scans = All-select IsScanned p ts r.scans;
}

pub review_set-IsReady : (s : Shelf) (ts : List Tool) → IsReady s ts → IsReady s (review_set ts)
unfolding review_set
review_set-IsReady s ts r =
    let chosen = IsReady-select s _ ts r in
    record {
      keyed = IsKeyed-sort _ _ chosen.keyed;
      found = All-sort (IsFound s.tools) _ _ chosen.found;
      scans = All-sort IsScanned _ _ chosen.scans;
    }

pub list_tools-IsReady :
    (s : Shelf) (server : Text) (tools : List Tool)
    → IsKeyed s.tools
    → list_tools server s.tools ≡ ok tools
    → IsReady s tools
unfolding list_tools
list_tools-IsReady s server tools keyed e =
    let listed = scan_all_same _ tools e in
    subst (IsReady s) (sym listed.0) (record {
      keyed = IsKeyed-sort _ _ (IsKeyed-select _ s.tools keyed);
      found =
          All-sort (IsFound s.tools) _ _
            (All-select (IsFound s.tools) _ s.tools (IsKeyed-found s.tools keyed));
      scans = listed.1;
    })
