-- ===== src/Quota/Plan.antt =====
-- NewPlan, IsDeclared, FreeTools and Charges of internal/quota/quota.go.
use gatte.Base.{
  Bool, ◌||◌, Text, text_eq, text_le, contains, trim_space, if◌then◌else◌, List, [], ◌∷◌, ◌++◌,
  sort, map, Result, ok, err, ◌>>=◌, any,
}
use gatte.Quota.{
  Time, Provider, ProviderError, validate_provider, window_start, add_duration, Charge,
}

pub data PlanError : Type 0 where
  invalid_provider : List ProviderError → PlanError
  duplicate_provider : Text → PlanError
  free_tool_empty : PlanError
  free_tool_duplicate free_tool_charged : Text → PlanError

pub record Plan : Type 0 where
  pub providers : List Provider
  pub by_tool : List (Text × List Provider)
  pub free : List Text

-- The loop that validates; `names` holds the names accepted before.
unfoldable pub check_providers : List Text → List Provider → Result PlanError (List Provider)
unfolding validate_provider contains
check_providers names [] = ok []
check_providers names (p ∷ ps) =
    let rest = check_providers (p.name ∷ names) ps in
    elim (validate_provider p) [
      | e ∷ es ↦ err (invalid_provider (e ∷ es))
      | [] ↦
          if contains names p.name
          then err (duplicate_provider p.name)
          else rest >>= λ stored. ok (p ∷ stored)
    ]

-- `byTool[tool] = append(byTool[tool], provider)`.
unfoldable pub index_add :
    Text → Provider → List (Text × List Provider) → List (Text × List Provider)
unfolding text_eq
index_add tool p [] = (tool, p ∷ []) ∷ []
index_add tool p ((t, ps) ∷ m) =
    if text_eq t tool then (t, ps ++ p ∷ []) ∷ m else (t, ps) ∷ index_add tool p m

unfoldable pub index_tools :
    Provider → List Text → List (Text × List Provider) → List (Text × List Provider)
unfolding index_add
index_tools p [] m = m
index_tools p (tool ∷ tools) m = index_tools p tools (index_add tool p m)

unfoldable pub index_providers :
    List Provider → List (Text × List Provider) → List (Text × List Provider)
unfolding index_tools
index_providers [] m = m
index_providers (p ∷ ps) m = index_providers ps (index_tools p p.tools m)

-- A read of the index, nil on a missing key.
unfoldable pub charged : List (Text × List Provider) → Text → List Provider
unfolding text_eq
charged [] tool = []
charged ((t, ps) ∷ m) tool = if text_eq t tool then ps else charged m tool

unfoldable pub is_charged : List (Text × List Provider) → Text → Bool
unfolding text_eq
is_charged m tool = any (λ e. text_eq e.0 tool) m

-- The loop over the free tools.
unfoldable pub add_free :
    List (Text × List Provider) → List Text → List Text → Result PlanError (List Text)
unfolding trim_space text_eq contains is_charged
add_free by_tool free [] = ok free
add_free by_tool free (tool ∷ tools) =
    let name = trim_space tool in
    let rest = add_free by_tool (free ++ name ∷ []) tools in
    if text_eq name []
    then err free_tool_empty
    else if contains free name
    then err (free_tool_duplicate name)
    else if is_charged by_tool name
    then err (free_tool_charged name)
    else rest

abbrev pub by_name : Provider → Provider → Bool
by_name a b = text_le a.name b.name

unfoldable pub new_plan : List Provider → List Text → Result PlanError Plan
unfolding check_providers index_providers add_free text_le
new_plan providers free_tools = do
  stored ← check_providers [] providers
  let sorted = sort by_name stored
  let by_tool = index_providers sorted []
  free ← add_free by_tool [] free_tools
  ok (record { providers = sorted; by_tool = by_tool; free = free })

unfoldable pub is_declared : Plan → Text → Bool
unfolding is_charged contains
is_declared p tool = is_charged p.by_tool tool || contains p.free tool

unfoldable pub charge_of : Provider → Time → Charge
unfolding window_start add_duration
charge_of provider now =
    let start = window_start provider now in
    record {
      provider = provider.name;
      limit = provider.limit;
      window_start = start;
      window_end = add_duration start provider.window;
    }

unfoldable pub charges : Plan → Text → Time → List Charge
unfolding charged charge_of
charges p tool now = map (λ provider. charge_of provider now) (charged p.by_tool tool)
