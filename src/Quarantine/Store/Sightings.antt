-- ===== src/Quarantine/Store/Sightings.antt =====
-- Observations keep the shelf in order.
use gatte.Base.{
  ◌≡◌, ◌≢◌, refl, sym, ap, ◌∙◌, subst, ℕ, true, false, List, [], ◌∷◌, ◌++◌, Text, text_eq,
  text_eq_iff, text_eq_refl, none, some, inl, inr, ◌⊎◌, All, any, any-append, All-append,
  All-weaken, arith, Bool-cases, Result-cases, Option-cases, ok,
}
use gatte.Quarantine.{Tool, Class, observed, new_tool, class_valid}
use gatte.Quarantine.Identity.{ToolIdentity, hash}
use gatte.Quarantine.Store.{
  Definition, Shelf, Faults, Moved, moved, is_named, find_row, scan_tool, update, names_hash,
  is_referenced, prune_both, keep_definition, observe, observe_known, observe_first,
}
use gatte.Quarantine.Store.Rows.{IsKeyed, IsUnnamed, find_row-All, found_names, missing-All}
use gatte.Quarantine.Store.Kept.{
  has_definition, IsKeptTool, IsTrueDefinition, IsNeeded, IsShelf, IsHalfPruned, prune_both-IsShelf,
}
use gatte.Quarantine.Store.Transactions.{
  commit-IsShelf, moved_ok, IsCovered-swapped, update-IsHalfPruned, IsAwaited,
}

scan_same : (row t : Tool) → scan_tool row ≡ ok t → row ≡ t
unfolding scan_tool
scan_same row t e = ground (arith, e)

observed_same :
    (t : Tool) (h : Text) (class : Class) (now : ℕ) (next : Tool)
    → observed t h class now ≡ ok next
    → (next.server_name ≡ t.server_name)
      × (next.tool_name ≡ t.tool_name)
      × (next.observed_hash ≡ h)
      × (next.approved_hash ≡ t.approved_hash)
unfolding observed
observed_same t h class now next e =
    (ground (arith, e), ground (arith, e), ground (arith, e), ground (arith, e))

module _ (h : Text) (t : ToolIdentity) (now : ℕ) (ds : List Definition) where
  keep-has : has_definition h (keep_definition h t now ds) ≡ true
  unfolding keep_definition
  keep-has = elim (Bool-cases (any (λ d. text_eq d.key h) ds)) [
    | inl there ↦ rw (keep_definition, there) there
    | inr fresh ↦
        rw (keep_definition, fresh)
          (any-append (λ d. text_eq d.key h) ds _ ∙ ground (arith, text_eq_refl h))
  ]

  keep-still :
      (k : Text) → has_definition k ds ≡ true → has_definition k (keep_definition h t now ds) ≡ true
  unfolding keep_definition
  keep-still k e = elim (Bool-cases (any (λ d. text_eq d.key h) ds)) [
    | inl there ↦ rw (keep_definition, there) e
    | inr fresh ↦
        rw (keep_definition, fresh) (any-append (λ d. text_eq d.key k) ds _ ∙ ground (arith, e))
  ]

  keep-All :
      (P : Definition → Type 0)
      → All P ds
      → P (record { key = h; identity = t; first_seen_at = now })
      → All P (keep_definition h t now ds)
  unfolding keep_definition
  keep-All P k new = elim (Bool-cases (any (λ d. text_eq d.key h) ds)) [
    | inl there ↦ rw (keep_definition, there) k
    | inr fresh ↦ rw (keep_definition, fresh) (All-append P ds _ k (new, tt))
  ]

  keep-IsKeptTool : (u : Tool) → IsKeptTool ds u → IsKeptTool (keep_definition h t now ds) u
  keep-IsKeptTool u k = (
    keep-still u.observed_hash k.0,
    elim k.1 [ inl e ↦ inl e | inr there ↦ inr (keep-still u.approved_hash there) ],
  )

unnamed_swap :
    (t u : Tool)
    → is_named t.server_name t.tool_name u ≡ false
    → is_named u.server_name u.tool_name t ≡ false
unfolding is_named
unnamed_swap t u e = ground (
  arith,
  e,
  text_eq_iff t.server_name u.server_name,
  text_eq_iff u.server_name t.server_name,
  text_eq_iff t.tool_name u.tool_name,
  text_eq_iff u.tool_name t.tool_name,
)

insert-IsKeyed :
    (new : Tool) (ts : List Tool)
    → IsKeyed ts
    → All (IsUnnamed new.server_name new.tool_name) ts
    → IsKeyed (ts ++ new ∷ [])
insert-IsKeyed new [] k h = (tt, tt)
insert-IsKeyed new (t ∷ ts) k h = (
  All-append (IsUnnamed t.server_name t.tool_name) ts (new ∷ []) k.0 (unnamed_swap new t h.0, tt),
  insert-IsKeyed new ts k.1 h.1,
)

module _ (sha256 : Text → Text) (digest : (t : Text) → sha256 t ≢ []) where
  observe_first-IsShelf :
      (f : Faults) (server : Text) (t : ToolIdentity) (class : Class) (now : ℕ) (s : Shelf)
      → IsShelf sha256 s
      → find_row server t.name s.tools ≡ none
      → IsShelf sha256 (record {
        tools = s.tools ++ new_tool server t.name (hash sha256 t) class now ∷ [];
        definitions = keep_definition (hash sha256 t) t now s.definitions;
      })
  unfolding new_tool is_referenced names_hash
  observe_first-IsShelf f server t class now s h missing =
      let k = hash sha256 t in
      let new = new_tool server t.name k class now in
      record {
        keyed = insert-IsKeyed new s.tools h.keyed (missing-All server t.name s.tools missing);
        kept =
            All-append (IsKeptTool (keep_definition k t now s.definitions)) s.tools (new ∷ [])
              (All-weaken (IsKeptTool s.definitions) _ s.tools
                (keep-IsKeptTool k t now s.definitions) h.kept)
              ((keep-has k t now s.definitions, inl refl), tt);
        genuine = keep-All k t now s.definitions (IsTrueDefinition sha256) h.genuine refl;
        needed =
            keep-All k t now s.definitions (IsNeeded (s.tools ++ new ∷ []))
              (All-weaken (IsNeeded s.tools) _ s.definitions
                (λ d n. any-append (names_hash d.key) s.tools (new ∷ []) ∙ ground (arith, n))
                h.needed)
              (any-append (names_hash k) s.tools (new ∷ []) ∙ ground (arith, text_eq_refl k));
      }

  observe_known-IsShelf :
      (server : Text) (t : ToolIdentity) (class : Class) (now : ℕ) (s : Shelf) (prev : Tool)
      (m : Moved)
      → IsShelf sha256 s
      → find_row server t.name s.tools ≡ some prev
      → observed prev (hash sha256 t) class now ≡ ok m.next
      → m.tools ≡ update m.next s.tools
      → IsShelf sha256 (
          prune_both prev.observed_hash prev.approved_hash (record {
            tools = m.tools;
            definitions = keep_definition (hash sha256 t) t now s.definitions;
          }))
  unfolding names_hash
  observe_known-IsShelf server t class now s prev m h found seen e =
      let k = hash sha256 t in
      let ds = keep_definition k t now s.definitions in
      let same = observed_same prev k class now m.next seen in
      let names = found_names server t.name s.tools prev found in
      let found_next : find_row m.next.server_name m.next.tool_name s.tools ≡ some prev =
        ap (λ q. find_row q m.next.tool_name s.tools) (same.0 ∙ names.0)
        ∙ ap (λ q. find_row server q s.tools) (same.1 ∙ names.1)
        ∙ found in
      let kept : All (IsKeptTool ds) s.tools =
        All-weaken (IsKeptTool s.definitions) (IsKeptTool ds) s.tools
          (keep-IsKeptTool k t now s.definitions) h.kept in
      let kept_prev = find_row-All (IsKeptTool ds) server t.name s.tools prev kept found in
      let kept_next : IsKeptTool ds m.next = (
        subst (λ q. has_definition q ds ≡ true) (sym same.2) (keep-has k t now s.definitions),
        subst (λ q. (q ≡ []) ⊎ (has_definition q ds ≡ true)) (sym same.3) kept_prev.1,
      ) in
      prune_both-IsShelf sha256 digest prev.observed_hash prev.approved_hash
        (record { tools = m.tools; definitions = ds })
        (subst
          (λ ts.
            IsHalfPruned sha256 prev.observed_hash prev.approved_hash
              (record { tools = ts; definitions = ds }))
          (sym e)
          (update-IsHalfPruned sha256 ds s.tools prev m.next h.keyed kept
            (keep-All k t now s.definitions (IsTrueDefinition sha256) h.genuine refl) found_next
            kept_next prev.observed_hash prev.approved_hash (IsCovered-swapped prev)
            (keep-All k t now s.definitions (IsAwaited s.tools m.next)
              (All-weaken (IsNeeded s.tools) (IsAwaited s.tools m.next) s.definitions (λ d n. inl n)
                h.needed)
              (inr (ground (arith, same.2, text_eq_refl k, text_eq_iff m.next.observed_hash k))))))

  known-IsShelf :
      (f : Faults) (server : Text) (t : ToolIdentity) (class : Class) (now : ℕ) (s : Shelf)
      (prev : Tool)
      → IsShelf sha256 s
      → find_row server t.name s.tools ≡ some prev
      → IsShelf sha256
          (observe_known f
            (hash sha256 t)
            class
            now
            s
            (record {
              tools = s.tools;
              definitions = keep_definition (hash sha256 t) t now s.definitions;
            })
            prev).0
  unfolding observe_known
  known-IsShelf f server t class now s prev h found =
      elim (Result-cases (moved (observed prev (hash sha256 t) class now) s.tools)) [
        | inl (e, refused) ↦ rw (observe_known, refused) h
        | inr (m, done) ↦
            let parts = moved_ok (observed prev (hash sha256 t) class now) s.tools m done in
            rw (observe_known, done)
              (commit-IsShelf sha256 digest f s _ _ h
                (observe_known-IsShelf server t class now s prev m h found parts.0 parts.1))
      ]

  -- An observation keeps the shelf in order, whatever fails.
  pub observe-IsShelf :
      (f : Faults) (server : Text) (t : ToolIdentity) (class : Class) (now : ℕ) (s : Shelf)
      → IsShelf sha256 s
      → IsShelf sha256 (observe sha256 f server t class now s).0
  unfolding observe observe_known observe_first
  observe-IsShelf f server t class now s h = elim (Bool-cases (class_valid class)) [
    | inr unknown ↦ rw (observe, unknown) h
    | inl valid ↦ elim (Bool-cases f.read_fails) [
      | inl fails ↦ rw (observe, valid, fails) h
      | inr reads ↦ elim (Option-cases (find_row server t.name s.tools)) [
        | inl missing ↦
            rw (observe, valid, reads, missing)
              (commit-IsShelf sha256 digest f s _ _ h
                (observe_first-IsShelf f server t class now s h missing))
        | inr (row, found) ↦ elim (Result-cases (scan_tool row)) [
          | inl (e, broken) ↦ rw (observe, valid, reads, found, broken) h
          | inr (prev, scanned) ↦
              rw (observe, valid, reads, found, scanned)
                (known-IsShelf f server t class now s prev h
                  (found ∙ ap (λ r. some r) (scan_same row prev scanned)))
        ]
      ]
    ]
  ]
