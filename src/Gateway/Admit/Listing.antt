-- ===== src/Gateway/Admit/Listing.antt =====
-- What ListTools shows, against the gates that Dispatch asks.
use gatte.Base.{
  ◌≡◌, refl, sym, ap, subst, ◌∙◌, Bool, true, false, ◌&&◌, Text, text_eq_iff, text_le, contains,
  contains-sort, List, [], ◌∷◌, map, sort, Option, none, some, Option-cases, Result, Result-cases,
  ok, err, arith, Bool-cases, inl, inr,
}
use gatte.Access.Policy.{Identity, Policy, authorize}
use gatte.Gateway.Admit.{
  BlockRead, Quarantine, Routes, Listed, ListError, list_refused, list_suspended, list_unavailable,
  AdmitError, tool_quarantined, sensitive_not_granted, quarantine_unavailable, admit, lookup,
  list_names, list_tools, check_block,
}

abbrev pub is_let_in : Option AdmitError → Bool
is_let_in none = true
is_let_in (some e) = false

-- Dispatch's gates for one name: routed, authorized, and let in.
unfoldable pub is_open : Quarantine → Policy → Identity → Routes → Text → Bool
is_open quarantine policy id routes name = elim (lookup routes name) [
  | none ↦ false
  | some rt ↦ authorize policy id name && is_let_in (admit quarantine policy id name rt)
]

abbrev pub shows : List Listed → Text → Bool
shows out tool = contains (map (λ l. l.name) out) tool

same_listing :
    (r : Result ListError (List Listed)) (a b : List Listed) → r ≡ ok a → r ≡ ok b → a ≡ b
same_listing r a b h k = cc

module _ (quarantine : Quarantine) (policy : Policy) (id : Identity) (routes : Routes) where
  -- A name that is not open is left out.
  skips :
      (n tool : Text) (names : List Text) (out : List Listed)
      → is_open quarantine policy id routes n ≡ false
      → shows out tool ≡ (contains names tool && is_open quarantine policy id routes tool)
      → shows out tool ≡ (contains (n ∷ names) tool && is_open quarantine policy id routes tool)
  unfolding contains
  skips n tool names out h ih = ground (arith, ih, h, text_eq_iff n tool)

  takes :
      (l : Listed) (tool : Text) (names : List Text) (out : List Listed)
      → is_open quarantine policy id routes l.name ≡ true
      → shows out tool ≡ (contains names tool && is_open quarantine policy id routes tool)
      → shows (l ∷ out) tool
        ≡ (contains (l.name ∷ names) tool && is_open quarantine policy id routes tool)
  unfolding contains
  takes l tool names out h ih = ground (arith, ih, h, text_eq_iff l.name tool)

  list_names-is_open :
      (names : List Text) (out : List Listed) (tool : Text)
      → list_names quarantine policy id routes names ≡ ok out
      → shows out tool ≡ (contains names tool && is_open quarantine policy id routes tool)
  unfolding list_names is_open contains
  list_names-is_open [] out tool h = ground (arith, h)
  list_names-is_open (n ∷ names) out tool h = elim (Option-cases (lookup routes n)) [
    | inl e ↦
        skips n tool names out (rw (is_open, e))
          (list_names-is_open names out tool (sym (rw (list_names, e)) ∙ h))
    | inr (rt, e) ↦ elim (Bool-cases (authorize policy id n)) [
      | inr a ↦
          skips n tool names out (rw (is_open, e, a))
            (list_names-is_open names out tool (sym (rw (list_names, e, a)) ∙ h))
      | inl a ↦ elim (Option-cases (admit quarantine policy id n rt)) [
        | inr (tool_quarantined, k) ↦
            skips n tool names out (rw (is_open, e, a, k))
              (list_names-is_open names out tool (sym (rw (list_names, e, a, k)) ∙ h))
        | inr (sensitive_not_granted, k) ↦
            skips n tool names out (rw (is_open, e, a, k))
              (list_names-is_open names out tool (sym (rw (list_names, e, a, k)) ∙ h))
        | inr (quarantine_unavailable, k) ↦
            let stopped : list_names quarantine policy id routes (n ∷ names)
                ≡ err list_unavailable =
              rw (list_names, e, a, k) in
            absurd cc
        | inl k ↦ elim (Result-cases (list_names quarantine policy id routes names)) [
          | inl (x, r) ↦
              let stopped : list_names quarantine policy id routes (n ∷ names) ≡ err x =
                rw (list_names, e, a, k, r) in
              absurd cc
          | inr (later, r) ↦
              let l : Listed = record {
                name = n;
                description = rt.description;
                input_schema = rt.input_schema;
              } in
              let same : list_names quarantine policy id routes (n ∷ names) ≡ ok (l ∷ later) =
                rw (list_names, e, a, k, r) in
              subst
                (λ o.
                  shows o tool
                  ≡ (contains (n ∷ names) tool && is_open quarantine policy id routes tool))
                (same_listing (list_names quarantine policy id routes (n ∷ names)) (l ∷ later) out
                  same h)
                (takes l tool names later (rw (is_open, e, a, k))
                  (list_names-is_open names later tool r))
        ]
      ]
    ]
  ]

  unrouted :
      (rs : Routes) (tool : Text)
      → contains (map (λ r. r.0) rs) tool ≡ false
      → lookup rs tool ≡ none
  unfolding contains lookup
  unrouted [] tool h = refl
  unrouted ((n, rt) ∷ rs) tool h = ground (arith, unrouted rs tool)

  names_cover :
      (tool : Text)
      → (contains (map (λ r. r.0) routes) tool && is_open quarantine policy id routes tool)
        ≡ is_open quarantine policy id routes tool
  unfolding is_open
  names_cover tool = elim (Bool-cases (contains (map (λ r. r.0) routes) tool)) [
    | inl h ↦ rw h
    | inr h ↦ rw (h, is_open, unrouted routes tool h)
  ]

  -- A listing that is answered shows exactly the names that are open: routed, allowed by the policy,
  -- and let in by the quarantine.
  pub list_tools-is_open :
      (admitted : Option Text) (block : BlockRead) (suspended : Bool) (out : List Listed)
      (tool : Text)
      → list_tools admitted block suspended quarantine policy routes id ≡ ok out
      → shows out tool ≡ is_open quarantine policy id routes tool
  unfolding list_tools
  list_tools-is_open admitted block suspended out tool h =
      elim (Option-cases (check_block admitted id.subject block)) [
        | inr (e, k) ↦
            let stopped : list_tools admitted block suspended quarantine policy routes id
                ≡ err (list_refused e) =
              rw (list_tools, k) in
            absurd cc
        | inl k ↦ elim (Bool-cases suspended) [
          | inl b ↦
              let stopped : list_tools admitted block suspended quarantine policy routes id
                  ≡ err list_suspended =
                rw (list_tools, k, b) in
              absurd cc
          | inr b ↦
              list_names-is_open (sort text_le (map (λ r. r.0) routes)) out tool
                (sym (rw (list_tools, k, b)) ∙ h)
              ∙ ap (λ c. c && is_open quarantine policy id routes tool)
                  (contains-sort text_le (map (λ r. r.0) routes) tool)
              ∙ names_cover tool
        ]
      ]
