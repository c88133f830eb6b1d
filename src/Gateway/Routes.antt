-- ===== src/Gateway/Routes.antt =====
-- The routing table: mergeRoutes, routesOf, UndeclaredQuotaTools and withholdUndeclaredQuotaTools of
-- internal/gateway/endpoint.go. A table is an association list without repeated names. Sorting only
-- fixes which upstream an error names, and is left out.
pub mod Table
pub mod Withheld
use gatte.Base.{
  ℕ, Bool, true, false, ◌&&◌, ◌||◌, not, Text, text_eq, text_le, contains, ◌++◌, if◌then◌else◌,
  List, [], ◌∷◌, Option, none, some, any, select, sort, map,
}
use gatte.Quota.{Provider, is_nil}
use gatte.Quota.Plan.{Plan, is_declared}
use gatte.Gateway.{split_namespaced}
use gatte.Gateway.Admit.{RoutedTool, Routes, lookup}

unfoldable pub has_route : Routes → Text → Bool
unfolding lookup
has_route routes name = elim (lookup routes name) [ none ↦ false | some rt ↦ true ]

-- `delete(m, name)`.
unfoldable pub delete : Routes → Text → Routes
unfolding text_eq
delete [] name = []
delete ((n, rt) ∷ routes) name =
    if text_eq n name then delete routes name else (n, rt) ∷ delete routes name

unfoldable pub delete_all : Routes → List Text → Routes
unfolding delete
delete_all routes [] = routes
delete_all routes (n ∷ names) = delete_all (delete routes n) names

-- The loops over the candidates of every upstream in turn: the table so far and the collisions.
unfoldable pub merge_into : Routes → List Text → Routes → Routes × List Text
unfolding has_route
merge_into merged collisions [] = (merged, collisions)
merge_into merged collisions ((n, rt) ∷ candidates) =
    if has_route merged n
    then merge_into merged (n ∷ collisions) candidates
    else merge_into (merged ++ (n, rt) ∷ []) collisions candidates

-- `candidates` holds the tables of all upstreams, one after the other.
unfoldable pub merge_routes : Routes → Routes
unfolding merge_into delete_all
merge_routes candidates =
    let (merged, collisions) = merge_into [] [] candidates in delete_all merged collisions

unfoldable pub routes_of : Routes → Text → Routes
unfolding text_eq
routes_of routes upstream = select (λ r. text_eq r.1.route.upstream upstream) routes

abbrev pub is_budgeted : List Provider → Text → Bool
is_budgeted providers upstream = any (λ p. text_eq p.upstream upstream) providers

-- The test of the loop over the served names.
unfoldable pub is_undeclared : Plan → Text → Bool
unfolding split_namespaced is_declared
is_undeclared plan tool = elim (split_namespaced tool) [
  | none ↦ false
  | some (upstream, name) ↦ is_budgeted plan.providers upstream && not (is_declared plan tool)
]

unfoldable pub undeclared_quota_tools : Plan → List Text → List Text
unfolding is_undeclared text_le
undeclared_quota_tools plan served =
    if is_nil plan.providers then [] else sort text_le (select (is_undeclared plan) served)

unfoldable pub withhold_undeclared : Plan → Routes → Routes
unfolding undeclared_quota_tools delete_all
withhold_undeclared plan routes =
    delete_all routes (undeclared_quota_tools plan (map (λ r. r.0) routes))
