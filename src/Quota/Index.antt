-- ===== src/Quota/Index.antt =====
-- The index of a plan that `new_plan` returns: a tool is charged to the accounts that list it.
use mathlib.Core.List.{append-nil, append_assoc}
use gatte.Base.{
  ◌≡◌, refl, sym, ap, ◌∙◌, text_le, Bool, true, false, not, Text, text_eq, text_eq_iff, contains,
  is_blank, if◌then◌else◌, List, [], ◌∷◌, ◌++◌, sort, map, select, Result, ok, err, All, All-sort,
  arith, Bool-cases, inl, inr, ◌⊎◌, when-append-nil, is_trimmed, is_nonpos,
}
use gatte.Quota.{
  Provider, ProviderError, validate_provider, tool_errors, Time, name_untrimmed, name_empty,
  upstream_empty, limit_not_positive, window_not_positive, no_tools, is_nil,
}
use gatte.Quota.Plan.{
  PlanError, Plan, check_providers, index_add, index_tools, index_providers, charged, add_free,
  by_name, new_plan, charges, charge_of,
}

abbrev lists : Text → Provider → Bool
lists tool q = contains q.tools tool

seen_not_listed :
    (seen tools : List Text) (t : Text)
    → tool_errors seen tools ≡ []
    → contains seen t ≡ true
    → contains tools t ≡ false
unfolding tool_errors contains
seen_not_listed seen [] t h s = refl
seen_not_listed seen (x ∷ xs) t h s =
    ground (arith, text_eq_iff x t, seen_not_listed (x ∷ seen) xs t)

charged-index_add :
    (tool t : Text) (q : Provider) (m : List (Text × List Provider))
    → charged (index_add tool q m) t
      ≡ (if text_eq tool t then charged m t ++ q ∷ [] else charged m t)
unfolding charged index_add
charged-index_add tool t q [] = refl
charged-index_add tool t q ((s, qs) ∷ m) =
    ground
      (arith, text_eq_iff s tool, text_eq_iff s t, text_eq_iff tool t, charged-index_add tool t q m)

tool_errors-tail :
    (seen : List Text) (x : Text) (xs : List Text)
    → tool_errors seen (x ∷ xs) ≡ []
    → tool_errors (x ∷ seen) xs ≡ []
unfolding tool_errors
tool_errors-tail seen x xs h = ground arith

valid-tools : (q : Provider) → validate_provider q ≡ [] → tool_errors [] q.tools ≡ []
unfolding validate_provider
valid-tools q e =
    let a = when-append-nil (not (is_trimmed q.name)) name_untrimmed _ e in
    let b = when-append-nil (is_blank q.name) name_empty _ a.1 in
    let c = when-append-nil (is_blank q.upstream) upstream_empty _ b.1 in
    let d = when-append-nil (is_nonpos q.limit) limit_not_positive _ c.1 in
    let f = when-append-nil (is_nonpos q.window) window_not_positive _ d.1 in
    (when-append-nil (is_nil q.tools) no_tools _ f.1).1

charged-index_tools :
    (q : Provider) (seen tools : List Text) (t : Text) (m : List (Text × List Provider))
    → tool_errors seen tools ≡ []
    → charged (index_tools q tools m) t ≡ charged m t ++ (if contains tools t then q ∷ [] else [])
unfolding index_tools tool_errors contains
charged-index_tools q seen [] t m h = sym (append-nil (charged m t))
charged-index_tools q seen (x ∷ xs) t m h =
    let ih =
      charged-index_tools q (x ∷ seen) xs t (index_add x q m) (tool_errors-tail seen x xs h) in
    elim (Bool-cases (text_eq x t)) [
      | inl same ↦
          let once = seen_not_listed (x ∷ seen) xs t (tool_errors-tail seen x xs h) (rw same) in
          rw (ih, charged-index_add x t q m, same, once) (append-nil (charged m t ++ q ∷ []))
      | inr other ↦ rw (ih, charged-index_add x t q m, other)
    ]

charged-index_providers :
    (qs : List Provider) (t : Text) (m : List (Text × List Provider))
    → All (λ q. validate_provider q ≡ []) qs
    → charged (index_providers qs m) t ≡ charged m t ++ select (lists t) qs
unfolding index_providers
charged-index_providers [] t m h = sym (append-nil (charged m t))
charged-index_providers (q ∷ qs) t m h =
    rw
      (
        charged-index_providers qs t (index_tools q q.tools m) h.1,
        charged-index_tools q [] q.tools t m (valid-tools q h.0),
      )
      (listed (Bool-cases (contains q.tools t)))
  where
    listed :
        (contains q.tools t ≡ true) ⊎ (contains q.tools t ≡ false)
        → (charged m t ++ (if contains q.tools t then q ∷ [] else [])) ++ select (lists t) qs
          ≡ charged m t ++ select (lists t) (q ∷ qs)
    listed (inl e) = rw e (append_assoc (charged m t) (q ∷ []) (select (lists t) qs))
    listed (inr e) = rw (e, append-nil (charged m t))

check_providers_ok :
    (names : List Text) (ps : List Provider) {out : List Provider}
    → check_providers names ps ≡ ok out
    → (out ≡ ps) × All (λ q. validate_provider q ≡ []) ps
unfolding check_providers
check_providers_ok names [] e = (ground arith, tt)
check_providers_ok names (q ∷ qs) {out} e =
    go (validate_provider q) refl (Bool-cases (contains names q.name))
      (check_providers (q.name ∷ names) qs) refl
      (λ rest k. check_providers_ok (q.name ∷ names) qs {out = rest} k)
  where
    go :
        (es : List ProviderError)
        → validate_provider q ≡ es
        → (contains names q.name ≡ true) ⊎ (contains names q.name ≡ false)
        → (r : Result PlanError (List Provider)) → check_providers (q.name ∷ names) qs ≡ r
        → ((rest : List Provider)
            → check_providers (q.name ∷ names) qs ≡ ok rest
            → (rest ≡ qs) × All (λ q. validate_provider q ≡ []) qs)
        → (out ≡ q ∷ qs) × All (λ q. validate_provider q ≡ []) (q ∷ qs)
    go (x ∷ xs) h d r k ih = ground (arith, h)
    go [] h (inl dup) r k ih = ground (arith, h, dup)
    go [] h (inr new) (err x) k ih = ground (arith, h, new, k)
    go [] h (inr new) (ok rest) k ih =
        let (same, valid) = ih rest k in (ground (arith, h, new, k, same), (h, valid))

-- A plan that `new_plan` returned, taken apart.
pub record IsPlan (p : Plan) : Type 0 where
  pub providers_valid : All (λ q. validate_provider q ≡ []) p.providers
  pub indexed : p.by_tool ≡ index_providers p.providers []

-- The accounts of a plan are the declared ones in the order of their names.
pub new_plan_made :
    (providers : List Provider) (free_tools : List Text) {p : Plan}
    → new_plan providers free_tools ≡ ok p
    → IsPlan p × (p.providers ≡ sort by_name providers)
unfolding new_plan
new_plan_made providers free_tools {p} e = go (check_providers [] providers) refl
  where
    go :
        (r : Result PlanError (List Provider))
        → check_providers [] providers ≡ r
        → IsPlan p × (p.providers ≡ sort by_name providers)
    go (err x) h = ground (arith, h)
    go (ok stored) h =
        inner (add_free (index_providers (sort by_name stored) []) [] free_tools) refl
      where
        inner :
            (r : Result PlanError (List Text))
            → add_free (index_providers (sort by_name stored) []) [] free_tools ≡ r
            → IsPlan p × (p.providers ≡ sort by_name providers)
        inner (err x) k = ground (arith, h, k)
        inner (ok free) k =
            let made : p ≡ record {
              providers = sort by_name stored;
              by_tool = index_providers (sort by_name stored) [];
              free = free;
            } =
              ground (arith, h, k) in
            let (same, valid) = check_providers_ok [] providers h in
            rw made (
              record {
                providers_valid =
                    All-sort (λ q. validate_provider q ≡ []) by_name stored (rw same valid);
                indexed = refl;
              },
              ap (sort by_name) same,
            )

pub new_plan-IsPlan :
    (providers : List Provider) (free_tools : List Text) {p : Plan}
    → new_plan providers free_tools ≡ ok p
    → IsPlan p
new_plan-IsPlan providers free_tools e = (new_plan_made providers free_tools e).0

-- A call of a tool is charged, in the order of the plan's accounts, to exactly those that list the tool.
pub charges-select :
    (p : Plan) (tool : Text) (now : Time)
    → IsPlan p
    → charges p tool now
      ≡ map (λ q. charge_of q now) (select (λ q. contains q.tools tool) p.providers)
unfolding charges
charges-select p tool now v = rw v.indexed (
    ap (map (λ q. charge_of q now)) (charged-index_providers p.providers tool [] v.providers_valid))

-- Under a plan that `new_plan` returns, a call of a tool is charged to exactly the declared accounts that
-- list the tool, sorted by their names, each once, with the account's limit and window.
pub charges-new_plan :
    (providers : List Provider) (free_tools : List Text) (tool : Text) (now : Time) {p : Plan}
    → new_plan providers free_tools ≡ ok p
    → charges p tool now
      ≡ map
          (λ q. charge_of q now)
          (select (λ q. contains q.tools tool) (sort (λ a b. text_le a.name b.name) providers))
charges-new_plan providers free_tools tool now {p} e =
    let (made, sorted) = new_plan_made providers free_tools e in
    charges-select p tool now made
    ∙ ap (λ qs. map (λ q. charge_of q now) (select (λ q. contains q.tools tool) qs)) sorted
