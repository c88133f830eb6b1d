-- ===== src/Access.antt =====
-- internal/access/access.go: roles, what they allow, and the policy from groups to roles. A Go map is
-- an association list without repeated keys; where the source iterates over one, the answer does not
-- depend on the order, except for which of several errors a constructor reports. Texts are values,
-- so the cloning that keeps a caller from writing into a policy has nothing to do here. Error texts
-- are left out: an error names the rule that is broken and the entry that breaks it.
pub mod Validate
pub mod Blocks
pub mod Policy
pub mod Grants
pub mod Decisions
pub mod WellFormed
use gatte.Base.{
  ℕ, Bool, true, false, ◌&&◌, ◌||◌, not, Text, codes, text_eq, contains, cut_prefix, ◌++◌,
  if◌then◌else◌, List, [], ◌∷◌, Option, none, some,
}

-- `GrantAll` and `nameSeparator`.
abbrev pub grant_all : Text
grant_all = codes "*"

abbrev pub name_separator : ℕ
name_separator = b'.'

pub record Role : Type 0 where
  pub name : Text
  pub tools : List Text
  pub grants : List (Text × List Text)
  pub non_read : Bool

unfoldable pub allows_explicitly : Role → Text → Bool
unfolding contains
allows_explicitly r tool = contains r.tools tool

abbrev pub is_nil : Text → Bool
is_nil [] = true
is_nil (c ∷ cs) = false

-- The body of the loop over `Grants`: one entry against one namespaced name.
unfoldable pub grant_matches : Text → List Text → Text → Bool
unfolding contains cut_prefix
grant_matches backend ids tool = elim (cut_prefix (backend ++ name_separator ∷ []) tool) [
  | none ↦ false
  | some rest ↦ not (is_nil rest) && (contains ids grant_all || contains ids rest)
]

unfoldable pub any_grant : List (Text × List Text) → Text → Bool
unfolding grant_matches
any_grant [] tool = false
any_grant ((backend, ids) ∷ grants) tool = grant_matches backend ids tool || any_grant grants tool

unfoldable pub allows : Role → Text → Bool
unfolding contains any_grant
allows r tool = contains r.tools tool || any_grant r.grants tool
