-- ===== src/Quarantine/Store/Departures.antt =====
-- Clearances and the forgetting of an upstream keep the shelf in order.
use gatte.Base.{
  ◌≡◌, ◌≢◌, sym, ap, ◌∙◌, subst, ℕ, Bool, true, not, ◌||◌, List, [], ◌∷◌, Text, text_eq, text_eq→eq,
  text_eq_refl, some, inl, inr, ◌⊎◌, any, select, All-select, All-both, All-weaken, All-tested,
  any_of_member, arith, Bool-cases, Result-cases, ok,
}
use gatte.Quarantine.{Tool, cleared}
use gatte.Quarantine.Store.{
  Definition, Shelf, Faults, moved, find_row, get, update, names_hash, is_referenced, clear_tool,
  forget,
}
use gatte.Quarantine.Store.Rows.{
  IsKeyed, IsUnnamed, is_referenced-update, is_referenced_next, update-All, update-IsKeyed,
  find_row-All, found_names,
}
use gatte.Quarantine.Store.Kept.{has_definition, IsKeptTool, IsTrueDefinition, IsNeeded, IsShelf}
use gatte.Quarantine.Store.Transactions.{commit-IsShelf, moved_ok, get-find_row}

cleared_same :
    (t : Tool) (now : ℕ) (next : Tool)
    → cleared t now ≡ ok next
    → (next.server_name ≡ t.server_name)
      × (next.tool_name ≡ t.tool_name)
      × (next.observed_hash ≡ t.observed_hash)
      × (next.approved_hash ≡ t.approved_hash)
unfolding cleared
cleared_same t now next e =
    (ground (arith, e), ground (arith, e), ground (arith, e), ground (arith, e))

cleared-IsShelf :
    (sha256 : Text → Text) (s : Shelf) (server tool : Text) (now : ℕ) (prev next : Tool)
    → IsShelf sha256 s
    → find_row server tool s.tools ≡ some prev
    → cleared prev now ≡ ok next
    → IsShelf sha256 (record s { tools = update next s.tools })
unfolding names_hash
cleared-IsShelf sha256 s server tool now prev next h found e =
    let same = cleared_same prev now next e in
    let names = found_names server tool s.tools prev found in
    let found_next : find_row next.server_name next.tool_name s.tools ≡ some prev =
      ap (λ q. find_row q next.tool_name s.tools) (same.0 ∙ names.0)
      ∙ ap (λ q. find_row server q s.tools) (same.1 ∙ names.1)
      ∙ found in
    let kept_prev = find_row-All (IsKeptTool s.definitions) server tool s.tools prev h.kept found in
    let kept_next : IsKeptTool s.definitions next = (
      subst (λ q. has_definition q s.definitions ≡ true) (sym same.2) kept_prev.0,
      subst (λ q. (q ≡ []) ⊎ (has_definition q s.definitions ≡ true)) (sym same.3) kept_prev.1,
    ) in
    let names_same : (k : Text) → names_hash k prev ≡ names_hash k next = λ k.
      ap (λ q. text_eq q k || text_eq prev.observed_hash k) (sym same.3)
      ∙ ap (λ q. text_eq next.approved_hash k || text_eq q k) (sym same.2) in
    record {
      keyed = update-IsKeyed next s.tools h.keyed;
      kept = update-All (IsKeptTool s.definitions) next s.tools (λ t n. kept_next) h.kept;
      genuine = h.genuine;
      needed =
          All-weaken (IsNeeded s.tools) (IsNeeded (update next s.tools)) s.definitions
            (λ d n. elim (is_referenced-update next prev s.tools d.key h.keyed found_next n) [
              | inl still ↦ still
              | inr gone ↦
                  is_referenced_next next prev s.tools d.key found_next
                    (sym (names_same d.key) ∙ gone)
            ])
            h.needed;
    }

-- A clearance keeps the shelf in order, whatever fails.
pub clear_tool-IsShelf :
    (sha256 : Text → Text) (digest : (t : Text) → sha256 t ≢ []) (f : Faults) (server tool : Text)
    (now : ℕ) (s : Shelf)
    → IsShelf sha256 s
    → IsShelf sha256 (clear_tool f server tool now s).0
unfolding clear_tool
clear_tool-IsShelf sha256 digest f server tool now s h = elim (Bool-cases f.read_fails) [
  | inl fails ↦ rw (clear_tool, fails) h
  | inr reads ↦ elim (Result-cases (get server tool s.tools)) [
    | inl (e, missing) ↦ rw (clear_tool, reads, missing) h
    | inr (prev, found) ↦ elim (Result-cases (moved (cleared prev now) s.tools)) [
      | inl (e, refused) ↦ rw (clear_tool, reads, found, refused) h
      | inr (m, done) ↦
          let parts = moved_ok (cleared prev now) s.tools m done in
          rw (clear_tool, reads, found, done)
            (commit-IsShelf sha256 digest f s _ m.next h (
              subst (λ ts. IsShelf sha256 (record s { tools = ts })) (sym parts.1)
                (cleared-IsShelf sha256 s server tool now prev m.next h
                  (get-find_row server tool s.tools prev found) parts.0)))
    ]
  ]
]

select-IsKeyed : (p : Tool → Bool) (ts : List Tool) → IsKeyed ts → IsKeyed (select p ts)
select-IsKeyed p [] k = tt
select-IsKeyed p (t ∷ ts) k = elim (Bool-cases (p t)) [
  | inl stays ↦
      rw stays (All-select (IsUnnamed t.server_name t.tool_name) p ts k.0, select-IsKeyed p ts k.1)
  | inr goes ↦ rw goes (select-IsKeyed p ts k.1)
]

has_definition-referenced :
    (k : Text) (ts : List Tool) (ds : List Definition)
    → is_referenced k ts ≡ true
    → has_definition k ds ≡ true
    → has_definition k (select (λ d. is_referenced d.key ts) ds) ≡ true
has_definition-referenced k ts [] r e = e
has_definition-referenced k ts (d ∷ ds) r e =
    let rest = has_definition-referenced k ts ds r in
    elim (Bool-cases (text_eq d.key k)) [
      | inl same ↦
          let needed : is_referenced d.key ts ≡ true =
            subst (λ q. is_referenced q ts ≡ true) (sym (text_eq→eq d.key k same)) r in
          rw needed (ground (arith, same))
      | inr other ↦
          let later = rest (ground (arith, other, e)) in
          elim (Bool-cases (is_referenced d.key ts)) [
            | inl needed ↦ rw needed (ground (arith, later))
            | inr loose ↦ rw loose later
          ]
    ]

left-IsKeptTool :
    (ts : List Tool) (ds : List Definition) (t : Tool)
    → IsKeptTool ds t × ((test : Tool → Bool) → test t ≡ true → any test ts ≡ true)
    → IsKeptTool (select (λ d. is_referenced d.key ts) ds) t
unfolding is_referenced names_hash
left-IsKeptTool ts ds t k = (
  has_definition-referenced t.observed_hash ts ds
      (k.1 (names_hash t.observed_hash) (ground (arith, text_eq_refl t.observed_hash))) k.0.0,
  elim k.0.1 [
    | inl none_approved ↦ inl none_approved
    | inr there ↦ inr (
        has_definition-referenced t.approved_hash ts ds
          (k.1 (names_hash t.approved_hash) (ground (arith, text_eq_refl t.approved_hash))) there)
  ],
)

left-IsShelf :
    (sha256 : Text → Text) (p : Tool → Bool) (s : Shelf)
    → IsShelf sha256 s
    → IsShelf sha256 (record {
      tools = select p s.tools;
      definitions = select (λ d. is_referenced d.key (select p s.tools)) s.definitions;
    })
left-IsShelf sha256 p s h =
    let ts = select p s.tools in
    record {
      keyed = select-IsKeyed p s.tools h.keyed;
      kept =
          All-weaken _ (IsKeptTool (select (λ d. is_referenced d.key ts) s.definitions)) ts
            (left-IsKeptTool ts s.definitions)
            (All-both (IsKeptTool s.definitions) _ ts
              (All-select (IsKeptTool s.definitions) p s.tools h.kept) (any_of_member ts));
      genuine =
          All-select (IsTrueDefinition sha256) (λ d. is_referenced d.key ts) s.definitions
            h.genuine;
      needed = All-tested (λ d. is_referenced d.key ts) s.definitions;
    }

-- The forgetting of an upstream keeps the shelf in order, whatever fails.
pub forget-IsShelf :
    (sha256 : Text → Text) (digest : (t : Text) → sha256 t ≢ []) (f : Faults) (server : Text)
    (s : Shelf)
    → IsShelf sha256 s
    → IsShelf sha256 (forget f server s).0
unfolding forget
forget-IsShelf sha256 digest f server s h = elim (Bool-cases f.read_fails) [
  | inl fails ↦ rw (forget, fails) h
  | inr reads ↦
      rw (forget, reads)
        (commit-IsShelf sha256 digest f s _ _ h
          (left-IsShelf sha256 (λ t. not (text_eq t.server_name server)) s h))
]
