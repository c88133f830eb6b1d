-- ===== src/Gateway/Routes/Table.antt =====
-- What the routing table holds after a merge and after the undeclared tools are withheld.
use gatte.Base.{
  ℕ, ◌+◌, ◌==◌, ◌≡◌, refl, sym, ◌∙◌, Bool, true, false, ◌&&◌, ◌||◌, Text, text_eq, text_eq_iff,
  text_le, contains, contains-sort, ◌++◌, if◌then◌else◌, List, [], ◌∷◌, none, any, select, map, ltb,
  arith, Bool-cases, Option-cases, inl, inr,
}
use gatte.Quota.{is_nil, Provider}
use gatte.Quota.Plan.{Plan}
use gatte.Gateway.{split_namespaced}
use gatte.Gateway.Admit.{Routes, RoutedTool, lookup}
use gatte.Gateway.Routes.{
  has_route, delete, delete_all, merge_into, merge_routes, is_undeclared, undeclared_quota_tools,
  withhold_undeclared,
}

lookup-delete :
    (rs : Routes) (n name : Text)
    → lookup (delete rs n) name ≡ (if text_eq n name then none else lookup rs name)
unfolding lookup delete
lookup-delete [] n name = ground arith
lookup-delete ((k, rt) ∷ rs) n name =
    ground (arith, lookup-delete rs n name, text_eq_iff k n, text_eq_iff k name, text_eq_iff n name)

pub lookup-delete_all :
    (rs : Routes) (names : List Text) (name : Text)
    → lookup (delete_all rs names) name ≡ (if contains names name then none else lookup rs name)
unfolding delete_all contains
lookup-delete_all rs [] name = refl
lookup-delete_all rs (n ∷ names) name =
    ground (arith, lookup-delete_all (delete rs n) names name, lookup-delete rs n name)

-- How many candidates claim a name.
unfoldable pub claims : Routes → Text → ℕ
unfolding text_eq
claims [] name = 0
claims ((n, rt) ∷ rs) name = (if text_eq n name then 1 else 0) + claims rs name

lookup-append :
    (rs qs : Routes) (name : Text)
    → lookup (rs ++ qs) name ≡ (if has_route rs name then lookup rs name else lookup qs name)
unfolding lookup has_route
lookup-append [] qs name = refl
lookup-append ((n, rt) ∷ rs) qs name = ground (arith, lookup-append rs qs name)

-- A route at the end counts where its name is new.
has_route-append :
    (rs : Routes) (n : Text) (rt : RoutedTool) (name : Text)
    → has_route (rs ++ (n, rt) ∷ []) name ≡ (has_route rs name || text_eq n name)
unfolding lookup has_route
has_route-append [] n rt name = ground arith
has_route-append ((k, qt) ∷ rs) n rt name = ground (arith, has_route-append rs n rt name)

lookup_unrouted :
    (rs : Routes) (name : Text)
    → (if has_route rs name then lookup rs name else none) ≡ lookup rs name
unfolding lookup has_route
lookup_unrouted [] name = refl
lookup_unrouted ((n, rt) ∷ rs) name = ground (arith, lookup_unrouted rs name)

merge_into-lookup :
    (merged : Routes) (collisions : List Text) (cs : Routes) (name : Text)
    → lookup (merge_into merged collisions cs).0 name
      ≡ (if has_route merged name then lookup merged name else lookup cs name)
unfolding merge_into lookup
merge_into-lookup merged collisions [] name = sym (lookup_unrouted merged name)
merge_into-lookup merged collisions ((n, rt) ∷ cs) name = elim (Bool-cases (has_route merged n)) [
  | inl h ↦ ground (arith, h, merge_into-lookup merged (n ∷ collisions) cs name, text_eq_iff n name)
  | inr h ↦ ground (
    arith,
    h,
    merge_into-lookup (merged ++ (n, rt) ∷ []) collisions cs name,
    has_route-append merged n rt name,
    lookup-append merged ((n, rt) ∷ []) name,
    text_eq_iff n name,
  )
]

merge_into-collisions :
    (merged : Routes) (collisions : List Text) (cs : Routes) (name : Text)
    → contains (merge_into merged collisions cs).1 name ≡ (
        contains collisions name
        || ltb 1 (claims cs name + (if has_route merged name then 1 else 0)))
unfolding merge_into claims contains
merge_into-collisions merged collisions [] name = ground arith
merge_into-collisions merged collisions ((n, rt) ∷ cs) name =
    elim (Bool-cases (has_route merged n)) [
      | inl h ↦
          ground
            (arith, h, merge_into-collisions merged (n ∷ collisions) cs name, text_eq_iff n name)
      | inr h ↦ ground (
        arith,
        h,
        merge_into-collisions (merged ++ (n, rt) ∷ []) collisions cs name,
        has_route-append merged n rt name,
        text_eq_iff n name,
      )
    ]

lookup_unclaimed : (rs : Routes) (name : Text) → claims rs name ≡ 0 → lookup rs name ≡ none
unfolding claims lookup
lookup_unclaimed [] name h = refl
lookup_unclaimed ((n, rt) ∷ rs) name h = ground (arith, lookup_unclaimed rs name)

-- The merged table serves a name exactly if one upstream claims it once, and then as that upstream
-- claims it: of two claims to a name neither is served.
pub lookup-merge_routes :
    (candidates : Routes) (name : Text)
    → lookup (merge_routes candidates) name
      ≡ (if claims candidates name == 1 then lookup candidates name else none)
unfolding merge_routes has_route lookup contains
lookup-merge_routes cs name =
    let collided : contains (merge_into [] [] cs).1 name ≡ ltb 1 (claims cs name + 0) =
      merge_into-collisions [] [] cs name in
    let found : lookup (merge_into [] [] cs).0 name ≡ lookup cs name =
      merge_into-lookup [] [] cs name in
    lookup-delete_all (merge_into [] [] cs).0 (merge_into [] [] cs).1 name
    ∙ ground (arith, found, collided, lookup_unclaimed cs name)

contains-select :
    (p : Text → Bool) (ss : List Text) (t : Text)
    → contains (select p ss) t ≡ (contains ss t && p t)
unfolding contains
contains-select p [] t = ground arith
contains-select p (s ∷ ss) t = elim (Bool-cases (p s)) [
  | inl h ↦ ground (arith, h, contains-select p ss t, text_eq_iff s t)
  | inr h ↦ ground (arith, h, contains-select p ss t, text_eq_iff s t)
]

any_of_nil : (p : Provider → Bool) (qs : List Provider) → is_nil qs ≡ true → any p qs ≡ false
any_of_nil p [] h = refl
any_of_nil p (q ∷ qs) h = absurd cc

unbudgeted :
    (plan : Plan) (tool : Text) → is_nil plan.providers ≡ true → is_undeclared plan tool ≡ false
unfolding is_undeclared
unbudgeted plan tool h = elim (Option-cases (split_namespaced tool)) [
  | inl e ↦ rw (is_undeclared, e)
  | inr ((upstream, name), e) ↦
      rw (is_undeclared, e, any_of_nil (λ q. text_eq q.upstream upstream) plan.providers h)
]

undeclared_quota_tools_lem :
    (plan : Plan) (served : List Text) (tool : Text)
    → contains (undeclared_quota_tools plan served) tool
      ≡ (contains served tool && is_undeclared plan tool)
unfolding undeclared_quota_tools contains
undeclared_quota_tools_lem plan served tool = elim (Bool-cases (is_nil plan.providers)) [
  | inl h ↦ let u = unbudgeted plan tool h in ground (arith, h, u)
  | inr h ↦ rw h (
      contains-sort text_le (select (is_undeclared plan) served) tool
      ∙ contains-select (is_undeclared plan) served tool)
]

lookup_uncontained :
    (rs : Routes) (name : Text) → contains (map (λ r. r.0) rs) name ≡ false → lookup rs name ≡ none
unfolding contains lookup
lookup_uncontained [] name h = refl
lookup_uncontained ((n, rt) ∷ rs) name h = ground (arith, lookup_uncontained rs name)

-- The table loses the names that pass the test of the loop, and no other.
pub lookup-withhold_undeclared :
    (plan : Plan) (routes : Routes) (tool : Text)
    → lookup (withhold_undeclared plan routes) tool
      ≡ (if is_undeclared plan tool then none else lookup routes tool)
unfolding withhold_undeclared
lookup-withhold_undeclared plan routes tool =
    lookup-delete_all routes (undeclared_quota_tools plan (map (λ r. r.0) routes)) tool
    ∙ ground (
      arith,
      undeclared_quota_tools_lem plan (map (λ r. r.0) routes) tool,
      lookup_uncontained routes tool,
    )
