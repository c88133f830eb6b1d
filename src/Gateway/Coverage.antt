-- ===== src/Gateway/Coverage.antt =====
-- CheckQuotaCoverage and quotaCoverage of internal/gateway/endpoint.go. A map from names to lists is the
-- loop that fills it, asked for one name.
pub mod Shared
use gatte.Base.{
  Bool, true, false, ◌||◌, Text, text_eq, if◌then◌else◌, List, [], ◌∷◌, ◌++◌, Option, none, some,
  any, map,
}
use gatte.Quota.{Provider, is_nil}
use gatte.Quota.Plan.{Plan}
use gatte.Registry.{UpstreamServer}
use gatte.Gateway.Routes.{is_budgeted}

pub data CoverageProblem : Type 0 where
  -- an account, and its upstream
  not_registered : Text → Text → CoverageProblem
  -- a budgeted entry, one that is not, and the variable that both declare
  shared_credential : Text → Text → Text → CoverageProblem

pub data Coverage : Type 0 where
  no_plan covered : Coverage
  uncovered : List Text → List CoverageProblem → Coverage

abbrev pub is_registered : List UpstreamServer → Text → Bool
is_registered entries upstream = any (λ e. text_eq e.name upstream) entries

unfoldable pub unregistered : List UpstreamServer → List Provider → List CoverageProblem
unfolding text_eq
unregistered entries [] = []
unregistered entries (p ∷ ps) =
    let rest = unregistered entries ps in
    if is_registered entries p.upstream then rest else not_registered p.name p.upstream ∷ rest

-- The entry's name, as often as it declares the variable.
unfoldable pub declared : Text → Text → List Text → List Text
unfolding text_eq
declared env_var name [] = []
declared env_var name (v ∷ vs) =
    let rest = declared env_var name vs in if text_eq v env_var then name ∷ rest else rest

-- `byEnvVar[envVar]`
unfoldable pub by_env_var : List UpstreamServer → Text → List Text
unfolding declared
by_env_var [] env_var = []
by_env_var (e ∷ es) env_var = declared env_var e.name e.env_var_names ++ by_env_var es env_var

-- The three nested loops, the innermost first.
unfoldable pub shared_others : List Provider → Text → Text → List Text → List CoverageProblem
unfolding text_eq
shared_others ps name env_var [] = []
shared_others ps name env_var (other ∷ others) =
    let rest = shared_others ps name env_var others in
    if text_eq other name || is_budgeted ps other
    then rest
    else shared_credential name other env_var ∷ rest

unfoldable pub shared_vars :
    List Provider → List UpstreamServer → Text → List Text → List CoverageProblem
unfolding shared_others by_env_var
shared_vars ps entries name [] = []
shared_vars ps entries name (v ∷ vs) =
    shared_others ps name v (by_env_var entries v) ++ shared_vars ps entries name vs

unfoldable pub shared_entries :
    List Provider → List UpstreamServer → List UpstreamServer → List CoverageProblem
unfolding shared_vars
shared_entries ps entries [] = []
shared_entries ps entries (e ∷ es) =
    let rest = shared_entries ps entries es in
    if is_budgeted ps e.name then shared_vars ps entries e.name e.env_var_names ++ rest else rest

-- The keys of `uncounted`, a name as often as it is implicated.
unfoldable pub uncounted : List CoverageProblem → List Text
uncounted [] = []
uncounted (not_registered account upstream ∷ problems) = uncounted problems
uncounted (shared_credential name other env_var ∷ problems) = other ∷ uncounted problems

abbrev pub verdict : List CoverageProblem → Coverage
unfolding uncounted
verdict [] = covered
verdict (x ∷ problems) = uncovered (uncounted (x ∷ problems)) (x ∷ problems)

unfoldable pub quota_coverage : Option Plan → List UpstreamServer → Coverage
unfolding unregistered shared_entries
quota_coverage none entries = no_plan
quota_coverage (some plan) entries =
    if is_nil plan.providers
    then covered
    else verdict
        (unregistered entries plan.providers ++ shared_entries plan.providers entries entries)
