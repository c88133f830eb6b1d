-- ===== src/Gateway/Coverage/Shared.antt =====
-- An empty list of problems says that every account reaches a registered upstream and that no credential
-- of a budgeted entry is carried by one that is not.
use gatte.Base.{
  if◌then◌else◌, ◌≡◌, refl, subst, Bool, true, false, ◌||◌, Text, text_eq, text_eq_iff, contains,
  List, [], ◌∷◌, ◌++◌, ◌↔◌, some, All, Bool-cases, arith, inl, inr,
}
use gatte.Quota.{Provider, is_nil}
use gatte.Quota.Plan.{Plan}
use gatte.Registry.{UpstreamServer}
use gatte.Gateway.Routes.{is_budgeted}
use gatte.Gateway.Coverage.{
  CoverageProblem, not_registered, shared_credential, covered, is_registered, unregistered,
  declared, by_env_var, shared_others, shared_vars, shared_entries, verdict, quota_coverage,
}

append_nil_iff : {A : Type 0} (xs ys : List A) → (xs ++ ys ≡ []) ↔ ((xs ≡ []) × (ys ≡ []))
append_nil_iff [] ys = (λ e. (refl, e), λ h. h.1)
append_nil_iff (x ∷ xs) ys = (λ e. absurd cc, λ h. absurd cc)

cons_if_iff :
    {A : Type 0} (b : Bool) (x : A) (xs : List A)
    → ((if b then xs else x ∷ xs) ≡ []) ↔ ((b ≡ true) × (xs ≡ []))
cons_if_iff true x xs = (λ e. (refl, e), λ h. h.1)
cons_if_iff false x xs = (λ e. absurd cc, λ h. absurd cc)

module _ (P : Text → Type 0) where
  All-contains : (ss : List Text) → All P ss ↔ ((s : Text) → contains ss s ≡ true → P s)
  unfolding contains
  All-contains [] = (λ h s c. absurd cc, λ h. tt)
  All-contains (t ∷ ss) = (
    λ h s c. elim (Bool-cases (text_eq t s)) [
      | inl same ↦ subst P ((text_eq_iff t s).0 same) h.0
      | inr other ↦ (All-contains ss).0 h.1 s (ground arith)
    ],
    λ h. (h t (ground (arith, text_eq_iff t t)), (All-contains ss).1 (λ s c. h s (ground arith))),
  )

  All-append_iff : (xs ys : List Text) → All P (xs ++ ys) ↔ (All P xs × All P ys)
  All-append_iff [] ys = (λ h. (tt, h), λ h. h.1)
  All-append_iff (x ∷ xs) ys = (
    λ h. let k = (All-append_iff xs ys).0 h.1 in ((h.0, k.0), k.1),
    λ h. (h.0.0, (All-append_iff xs ys).1 (h.0.1, h.1)),
  )

  All-declared :
      (v name : Text) (vs : List Text)
      → All P (declared v name vs) ↔ (contains vs v ≡ true → P name)
  unfolding declared contains
  All-declared v name [] = (λ h c. absurd cc, λ h. tt)
  All-declared v name (w ∷ vs) = elim (Bool-cases (text_eq w v)) [
    | inl same ↦ rw same (
      λ h c. h.0,
      λ h. (h (ground (arith, same)), (All-declared v name vs).1 (λ c. h (ground arith))),
    )
    | inr other ↦ rw other (
      λ h c. (All-declared v name vs).0 h (ground arith),
      λ h. (All-declared v name vs).1 (λ c. h (ground arith)),
    )
  ]

  All-by_env_var :
      (entries : List UpstreamServer) (v : Text)
      → All P (by_env_var entries v)
        ↔ All (λ e. contains e.env_var_names v ≡ true → P e.name) entries
  unfolding by_env_var
  All-by_env_var [] v = (λ h. tt, λ h. tt)
  All-by_env_var (e ∷ es) v = (
    λ h.
        let k = (All-append_iff (declared v e.name e.env_var_names) (by_env_var es v)).0 h in
        ((All-declared v e.name e.env_var_names).0 k.0, (All-by_env_var es v).0 k.1),
    λ h.
        (All-append_iff (declared v e.name e.env_var_names) (by_env_var es v)).1
          ((All-declared v e.name e.env_var_names).1 h.0, (All-by_env_var es v).1 h.1),
  )

unregistered_nil :
    (entries : List UpstreamServer) (ps : List Provider)
    → (unregistered entries ps ≡ []) ↔ All (λ p. is_registered entries p.upstream ≡ true) ps
unfolding unregistered
unregistered_nil entries [] = (λ e. tt, λ h. refl)
unregistered_nil entries (p ∷ ps) =
    let one =
      cons_if_iff (is_registered entries p.upstream) (not_registered p.name p.upstream)
        (unregistered entries ps) in
    let rest = unregistered_nil entries ps in
    (λ e. ((one.0 e).0, rest.0 (one.0 e).1), λ h. one.1 (h.0, rest.1 h.1))

module _ (ps : List Provider) where
  shared_others_nil :
      (name v : Text) (others : List Text)
      → is_budgeted ps name ≡ true
      → (shared_others ps name v others ≡ []) ↔ All (λ o. is_budgeted ps o ≡ true) others
  unfolding shared_others
  shared_others_nil name v [] b = (λ e. tt, λ h. refl)
  shared_others_nil name v (o ∷ os) b =
      let one =
        cons_if_iff (text_eq o name || is_budgeted ps o) (shared_credential name o v)
          (shared_others ps name v os) in
      let rest = shared_others_nil name v os b in
      let budgeted : (text_eq o name || is_budgeted ps o) ≡ true → is_budgeted ps o ≡ true = λ t.
        elim (Bool-cases (text_eq o name)) [
          | inl same ↦ rw ((text_eq_iff o name).0 same) b
          | inr other ↦ ground arith
        ] in
      (
        λ e. (budgeted (one.0 e).0, rest.0 (one.0 e).1),
        λ h. one.1 (ground (arith, h.0), rest.1 h.1),
      )

  IsBudgetedFor : List UpstreamServer → Text → Type 0
  IsBudgetedFor entries v =
      All (λ e. contains e.env_var_names v ≡ true → is_budgeted ps e.name ≡ true) entries

  shared_vars_nil :
      (entries : List UpstreamServer) (name : Text) (vs : List Text)
      → is_budgeted ps name ≡ true
      → (shared_vars ps entries name vs ≡ []) ↔ All (IsBudgetedFor entries) vs
  unfolding shared_vars IsBudgetedFor
  shared_vars_nil entries name [] b = (λ e. tt, λ h. refl)
  shared_vars_nil entries name (v ∷ vs) b =
      let both =
        append_nil_iff (shared_others ps name v (by_env_var entries v))
          (shared_vars ps entries name vs) in
      let one = shared_others_nil name v (by_env_var entries v) b in
      let each = All-by_env_var (λ o. is_budgeted ps o ≡ true) entries v in
      let rest = shared_vars_nil entries name vs b in
      (
        λ e. (each.0 (one.0 (both.0 e).0), rest.0 (both.0 e).1),
        λ h. both.1 (one.1 (each.1 h.0), rest.1 h.1),
      )

  abbrev pub IsCounted : List UpstreamServer → UpstreamServer → Type 0
  IsCounted entries a =
      is_budgeted ps a.name ≡ true
      → (v : Text) → contains a.env_var_names v ≡ true
      → All (λ e. contains e.env_var_names v ≡ true → is_budgeted ps e.name ≡ true) entries

  shared_entries_nil :
      (entries es : List UpstreamServer)
      → (shared_entries ps entries es ≡ []) ↔ All (IsCounted entries) es
  unfolding shared_entries IsBudgetedFor
  shared_entries_nil entries [] = (λ e. tt, λ h. refl)
  shared_entries_nil entries (a ∷ es) =
      let rest = shared_entries_nil entries es in
      elim (Bool-cases (is_budgeted ps a.name)) [
        | inl b ↦
            let both =
              append_nil_iff (shared_vars ps entries a.name a.env_var_names)
                (shared_entries ps entries es) in
            let one = shared_vars_nil entries a.name a.env_var_names b in
            let each = All-contains (IsBudgetedFor entries) a.env_var_names in
            rw b (
              λ e. (λ t. each.0 (one.0 (both.0 e).0), rest.0 (both.0 e).1),
              λ h. both.1 (one.1 (each.1 (h.0 refl)), rest.1 h.1),
            )
        | inr free ↦ rw free (λ e. (λ t. absurd cc, rest.0 e), λ h. rest.1 h.1)
      ]

-- Every account reaches a registered upstream, and every credential of a budgeted entry is only in
-- entries that are budgeted.
abbrev pub IsCovered : List Provider → List UpstreamServer → Type 0
IsCovered ps entries =
    All (λ p. is_registered entries p.upstream ≡ true) ps × All (IsCounted ps entries) entries

verdict_lem : (problems : List CoverageProblem) → (verdict problems ≡ covered) ↔ (problems ≡ [])
unfolding verdict
verdict_lem [] = (λ e. refl, λ e. refl)
verdict_lem (x ∷ problems) = (λ e. absurd cc, λ e. absurd cc)

unbudgeted-IsCounted : (entries es : List UpstreamServer) → All (IsCounted [] entries) es
unbudgeted-IsCounted entries [] = tt
unbudgeted-IsCounted entries (a ∷ es) = (λ t. absurd cc, unbudgeted-IsCounted entries es)

coverage_of :
    (ps : List Provider) (entries : List UpstreamServer)
    → ((if is_nil ps
          then covered
          else verdict (unregistered entries ps ++ shared_entries ps entries entries))
        ≡ covered)
      ↔ IsCovered ps entries
coverage_of [] entries = (λ e. (tt, unbudgeted-IsCounted entries entries), λ h. refl)
coverage_of (p ∷ ps) entries =
    let problems = unregistered entries (p ∷ ps) ++ shared_entries (p ∷ ps) entries entries in
    let both =
      append_nil_iff (unregistered entries (p ∷ ps)) (shared_entries (p ∷ ps) entries entries) in
    let first = unregistered_nil entries (p ∷ ps) in
    let second = shared_entries_nil (p ∷ ps) entries entries in
    (
      λ e.
          let none_found = both.0 ((verdict_lem problems).0 e) in
          (first.0 none_found.0, second.0 none_found.1),
      λ h. (verdict_lem problems).1 (both.1 (first.1 h.0, second.1 h.1)),
    )

-- A plan covers a registry exactly if the upstream of every account is registered and each variable that
-- a budgeted entry declares is declared by budgeted entries only.
pub quota_coverage-IsCovered :
    (plan : Plan) (entries : List UpstreamServer)
    → (quota_coverage (some plan) entries ≡ covered) ↔ IsCovered plan.providers entries
unfolding quota_coverage
quota_coverage-IsCovered plan entries = coverage_of plan.providers entries
