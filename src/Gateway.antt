-- ===== src/Gateway.antt =====
-- internal/gateway: the names that clients see (gateway.go), and the request path of endpoint.go,
-- resilience.go, response.go and authlimit.go in the modules below.
pub mod Names
pub mod Routes
pub mod Coverage
pub mod Trail
pub mod AuthLimit
pub mod Slots
pub mod Admit
pub mod World
pub mod Dispatch
pub mod Front
use gatte.Base.{
  Bool, true, false, ◌||◌, Text, cut, ◌++◌, ◌∷◌, [], if◌then◌else◌, Option, none, some, codes,
}
use gatte.Access.{name_separator, is_nil}

unfoldable pub namespaced : Text → Text → Text
namespaced upstream tool = upstream ++ name_separator ∷ tool

-- `none` where the third result of the source is false.
unfoldable pub split_namespaced : Text → Option (Text × Text)
unfolding cut
split_namespaced name = elim (cut name_separator name) [
  | none ↦ none
  | some (upstream, tool) ↦ if is_nil upstream || is_nil tool then none else some (upstream, tool)
]

abbrev pub unknown_upstream : Text
unknown_upstream = codes "(unknown)"

unfoldable pub target_of : Text → Text
unfolding split_namespaced
target_of name = elim (split_namespaced name) [
  | none ↦ unknown_upstream
  | some (upstream, tool) ↦ upstream
]
