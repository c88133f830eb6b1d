-- ===== src/Quarantine/Store/Transactions.antt =====
-- Every transaction of the store keeps the shelf in order.
use gatte.Base.{
  ◌≡◌, ◌≢◌, refl, sym, ap, ◌∙◌, subst, ℕ, true, List, [], Text, text_eq, text_eq→eq, if_true,
  if_false, some, inl, inr, ◌⊎◌, All, All-weaken, arith, Bool-cases, Result-cases, Option-cases,
  Result, ok, err,
}
use gatte.Quarantine.{Tool, QuarantineError, approve, approved_fingerprint, cleared, revoked}
use gatte.Quarantine.Store.{
  Definition, Shelf, Faults, Moved, moved, find_row, get, scan_tool, update, updated, names_hash,
  prune_both, commit, change, approve_tool, approve_fingerprint, revoke_tool,
}
use gatte.Quarantine.Store.Rows.{
  IsKeyed, is_referenced-update, is_referenced_next, update-All, update-IsKeyed, updated_ok,
  find_row-All, found_names,
}
use gatte.Quarantine.Store.Kept.{
  has_definition, IsKeptTool, IsTrueDefinition, IsNeeded, IsShelf, IsLeft, IsHalfPruned,
  prune_both-IsShelf,
}

-- What a transition may do to the hashes of a row.
pub record IsStep (prev next : Tool) : Type 0 where
  pub same_server : next.server_name ≡ prev.server_name
  pub same_tool : next.tool_name ≡ prev.tool_name
  pub same_observed : next.observed_hash ≡ prev.observed_hash
  pub approved_from :
      (next.approved_hash ≡ [])
      ⊎ ((next.approved_hash ≡ prev.observed_hash) ⊎ (next.approved_hash ≡ prev.approved_hash))

approve-IsStep : (t : Tool) (now : ℕ) → IsStep t (approve t now)
unfolding approve
approve-IsStep t now = record {
  same_server = refl;
  same_tool = refl;
  same_observed = refl;
  approved_from = inr (inl refl);
}

approved_fingerprint-IsStep :
    (t : Tool) (reviewed : Text) (now : ℕ) (next : Tool)
    → approved_fingerprint t reviewed now ≡ ok next
    → IsStep t next
unfolding approved_fingerprint
approved_fingerprint-IsStep t reviewed now next e =
    elim (Bool-cases (text_eq t.observed_hash reviewed)) [
      | inl same ↦
          let made : approve t now ≡ next = ground (arith, same, e) in
          subst (IsStep t) made (approve-IsStep t now)
      | inr moved_on ↦ absurd (ground (arith, moved_on, e))
    ]

approve_of :
    (t next : Tool) (now : ℕ)
    → ◌≡◌ {A = Result QuarantineError Tool} (ok (approve t now)) (ok next)
    → approve t now ≡ next
approve_of t next now e = cc

revoked-IsStep : (t : Tool) (now : ℕ) (next : Tool) → revoked t now ≡ ok next → IsStep t next
unfolding revoked
revoked-IsStep t now next e = record {
  same_server = ground (arith, e);
  same_tool = ground (arith, e);
  same_observed = ground (arith, e);
  approved_from = inl (ground (arith, e));
}

pub cleared-IsStep : (t : Tool) (now : ℕ) (next : Tool) → cleared t now ≡ ok next → IsStep t next
unfolding cleared
cleared-IsStep t now next e = record {
  same_server = ground (arith, e);
  same_tool = ground (arith, e);
  same_observed = ground (arith, e);
  approved_from = inr (inr (ground (arith, e)));
}

step-IsKeptTool :
    (ds : List Definition) (prev next : Tool)
    → IsStep prev next
    → IsKeptTool ds prev
    → IsKeptTool ds next
step-IsKeptTool ds prev next s k = (
  subst (λ h. has_definition h ds ≡ true) (sym s.same_observed) k.0,
  elim s.approved_from [
    | inl none_approved ↦ inl none_approved
    | inr (inl e) ↦ inr (subst (λ h. has_definition h ds ≡ true) (sym e) k.0)
    | inr (inr e) ↦ elim k.1 [
      | inl none_approved ↦ inl (e ∙ none_approved)
      | inr there ↦ inr (subst (λ h. has_definition h ds ≡ true) (sym e) there)
    ]
  ],
)

pub get-find_row :
    (server tool : Text) (ts : List Tool) (t : Tool)
    → get server tool ts ≡ ok t
    → find_row server tool ts ≡ some t
unfolding get scan_tool
get-find_row server tool ts t e = elim (Option-cases (find_row server tool ts)) [
  | inl missing ↦ absurd (ground (arith, missing, e))
  | inr (row, found) ↦ ground (arith, found, e)
]

pub moved_ok :
    (r : Result QuarantineError Tool) (ts : List Tool) (m : Moved)
    → moved r ts ≡ ok m
    → (r ≡ ok m.next) × (m.tools ≡ update m.next ts)
unfolding moved
moved_ok (err x) ts m e = absurd cc
moved_ok (ok next) ts m e = elim (Result-cases (updated next ts)) [
  | inl (x, bad) ↦ absurd (ground (arith, bad, e))
  | inr (ts', done) ↦
      let same : record { next = next; tools = ts' } ≡ m = ground (arith, done, e) in
      (
        ap (λ (z : Moved). ok z.next) same,
        sym (ap (λ (z : Moved). z.tools) same)
            ∙ updated_ok next ts ts' done
            ∙ ap (λ (z : Moved). update z.next ts) same,
      )
]

-- The hashes of a row, where both are to be pruned.
abbrev pub IsCovered : Tool → Text → Text → Type 0
IsCovered prev a b = (k : Text) → names_hash k prev ≡ true → (k ≡ a) ⊎ (k ≡ b)

covered : (prev : Tool) → IsCovered prev prev.approved_hash prev.observed_hash
unfolding names_hash
covered prev k e = elim (Bool-cases (text_eq prev.approved_hash k)) [
  | inl same ↦ inl (sym (text_eq→eq prev.approved_hash k same))
  | inr other ↦ inr (sym (text_eq→eq prev.observed_hash k (ground (arith, other, e))))
]

pub IsCovered-swapped : (prev : Tool) → IsCovered prev prev.observed_hash prev.approved_hash
IsCovered-swapped prev k e = elim (covered prev k e) [ inl a ↦ inr a | inr b ↦ inl b ]

-- A definition that a row names, or that the row to be written will.
abbrev pub IsAwaited : List Tool → Tool → Definition → Type 0
IsAwaited ts next d = IsNeeded ts d ⊎ (names_hash d.key next ≡ true)

module _ (sha256 : Text → Text) (ds : List Definition) (ts : List Tool) (prev next : Tool)
    (keyed : IsKeyed ts) (kept : All (IsKeptTool ds) ts)
    (genuine : All (IsTrueDefinition sha256) ds)
    (found : find_row next.server_name next.tool_name ts ≡ some prev)
    (kept_next : IsKeptTool ds next) where
  update-kept : All (IsKeptTool ds) (update next ts)
  update-kept = update-All (IsKeptTool ds) next ts (λ t n. kept_next) kept

  awaited-IsLeft :
      (a b : Text)
      → IsCovered prev a b
      → (d : Definition) → IsAwaited ts next d
      → IsLeft (update next ts) a b d
  awaited-IsLeft a b c d (inl needed) =
      elim (is_referenced-update next prev ts d.key keyed found needed) [
        | inl still ↦ inl still
        | inr gone ↦ inr (c d.key gone)
      ]
  awaited-IsLeft a b c d (inr coming) = inl (is_referenced_next next prev ts d.key found coming)

  pub update-IsHalfPruned :
      (a b : Text)
      → IsCovered prev a b
      → All (IsAwaited ts next) ds
      → IsHalfPruned sha256 a b (record { tools = update next ts; definitions = ds })
  update-IsHalfPruned a b c awaited = record {
    keyed = update-IsKeyed next ts keyed;
    kept = update-kept;
    genuine = genuine;
    left =
        All-weaken (IsAwaited ts next) (IsLeft (update next ts) a b) ds (awaited-IsLeft a b c)
          awaited;
  }

module _ (sha256 : Text → Text) (digest : (t : Text) → sha256 t ≢ []) where
  abbrev IsFine : Shelf → Type 0
  IsFine s = IsShelf sha256 s

  pub commit-IsShelf {ℓ} :
      {A : Type ℓ} (f : Faults) (s s' : Shelf) (a : A)
      → IsFine s
      → IsFine s'
      → IsFine (commit f s s' a).0
  commit-IsShelf f s s' a h h' = elim (Bool-cases f.write_fails) [
    | inl fails ↦
        subst IsFine
          (ap {A = Shelf × Result QuarantineError _} (λ z. z.0) (sym (if_true _ _ _ fails))) h
    | inr works ↦
        subst IsFine
          (ap {A = Shelf × Result QuarantineError _} (λ z. z.0) (sym (if_false _ _ _ works))) h'
  ]

  moved-IsShelf :
      (s : Shelf) (server tool : Text) (prev : Tool) (m : Moved)
      → IsFine s
      → find_row server tool s.tools ≡ some prev
      → IsStep prev m.next
      → m.tools ≡ update m.next s.tools
      → IsFine (prune_both prev.approved_hash prev.observed_hash (record s { tools = m.tools }))
  moved-IsShelf s server tool prev m h found step e =
      let names = found_names server tool s.tools prev found in
      let found_next : find_row m.next.server_name m.next.tool_name s.tools ≡ some prev =
        ap (λ q. find_row q m.next.tool_name s.tools) (step.same_server ∙ names.0)
        ∙ ap (λ q. find_row server q s.tools) (step.same_tool ∙ names.1)
        ∙ found in
      let kept_prev =
        find_row-All (IsKeptTool s.definitions) server tool s.tools prev h.kept found in
      prune_both-IsShelf sha256 digest prev.approved_hash prev.observed_hash
        (record s { tools = m.tools })
        (subst
          (λ ts.
            IsHalfPruned sha256 prev.approved_hash prev.observed_hash (record s { tools = ts }))
          (sym e)
          (update-IsHalfPruned sha256 s.definitions s.tools prev m.next h.keyed h.kept h.genuine
            found_next (step-IsKeptTool s.definitions prev m.next step kept_prev) prev.approved_hash
            prev.observed_hash (covered prev)
            (All-weaken (IsNeeded s.tools) (IsAwaited s.tools m.next) s.definitions (λ d n. inl n)
              h.needed)))

  change-IsShelf :
      (f : Faults) (transition : Tool → Result QuarantineError Tool) (server tool : Text)
      (s : Shelf)
      → ((prev next : Tool) → transition prev ≡ ok next → IsStep prev next)
      → IsFine s
      → IsFine (change f transition server tool s).0
  unfolding change
  change-IsShelf f transition server tool s steps h = elim (Bool-cases f.read_fails) [
    | inl fails ↦ rw (change, fails) h
    | inr reads ↦ elim (Result-cases (get server tool s.tools)) [
      | inl (e, missing) ↦ rw (change, reads, missing) h
      | inr (prev, found) ↦ elim (Result-cases (moved (transition prev) s.tools)) [
        | inl (e, refused) ↦ rw (change, reads, found, refused) h
        | inr (m, done) ↦
            let parts = moved_ok (transition prev) s.tools m done in
            rw (change, reads, found, done)
              (commit-IsShelf f s _ m.next h (
                moved-IsShelf s server tool prev m h (get-find_row server tool s.tools prev found)
                  (steps prev m.next parts.0) parts.1))
      ]
    ]
  ]

  pub approve_tool-IsShelf :
      (f : Faults) (server tool : Text) (now : ℕ) (s : Shelf)
      → IsFine s
      → IsFine (approve_tool f server tool now s).0
  unfolding approve_tool
  approve_tool-IsShelf f server tool now s =
      change-IsShelf f _ server tool s
        (λ prev next e. subst (IsStep prev) (approve_of prev next now e) (approve-IsStep prev now))

  pub approve_fingerprint-IsShelf :
      (f : Faults) (server tool reviewed : Text) (now : ℕ) (s : Shelf)
      → IsFine s
      → IsFine (approve_fingerprint f server tool reviewed now s).0
  unfolding approve_fingerprint
  approve_fingerprint-IsShelf f server tool reviewed now s =
      change-IsShelf f _ server tool s
        (λ prev next e. approved_fingerprint-IsStep prev reviewed now next e)

  pub revoke_tool-IsShelf :
      (f : Faults) (server tool : Text) (now : ℕ) (s : Shelf)
      → IsFine s
      → IsFine (revoke_tool f server tool now s).0
  unfolding revoke_tool
  revoke_tool-IsShelf f server tool now s =
      change-IsShelf f _ server tool s (λ prev next e. revoked-IsStep prev now next e)
