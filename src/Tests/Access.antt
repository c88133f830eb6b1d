-- ===== src/Tests/Access.antt =====
-- Roles and policies at concrete inputs.
use gatte.Base.{
  ◌≡◌, refl, true, false, ◌&&◌, ◌||◌, Text, codes, List, [], ◌∷◌, ◌++◌, contains, has_byte, ok,
}
use gatte.Access.{Role, allows, name_separator}
use gatte.Access.Validate.{validate_role}
use gatte.Access.Policy.{Identity, Policy, new_policy, authorize, authorize_non_read, allowed_tools}
use gatte.Access.Grants.{granted, allows-granted}
use gatte.Access.Decisions.{some_group, authorize-some_group, contains-allowed_tools}
use gatte.Access.WellFormed.{IsPolicy, new_policy-IsPolicy}

abbrev reader : Role
reader = record {
  name = codes "reader";
  tools = [];
  grants = (codes "ti", codes "*" ∷ []) ∷ [];
  non_read = false;
}

abbrev responder : Role
responder = record {
  name = codes "responder";
  tools = codes "edr.isolate" ∷ [];
  grants = [];
  non_read = true;
}

abbrev groups : List (Text × Text)
groups = (codes "soc", codes "reader") ∷ (codes "ir", codes "responder") ∷ []

abbrev pub policy : Policy
policy = record { roles = reader ∷ responder ∷ []; group_to_role = groups }

abbrev pub analyst : Identity
analyst = record {
  subject = codes "a1";
  name = codes "Ana";
  groups = codes "soc" ∷ codes "ir" ∷ [];
}

policy_is_built : new_policy (reader ∷ responder ∷ []) groups ≡ ok policy
unfolding new_policy
policy_is_built = refl

abbrev lookup : Text
lookup = codes "ti.lookup"

reader_looks_up : authorize policy analyst lookup ≡ true
unfolding authorize
reader_looks_up = refl

other_backend_is_refused : authorize policy analyst (codes "ti2.lookup") ≡ false
unfolding authorize
other_backend_is_refused = refl

wildcard_does_not_act : authorize_non_read policy analyst lookup ≡ false
unfolding authorize_non_read
wildcard_does_not_act = refl

allows-granted_example : allows reader (codes "ti" ++ name_separator ∷ codes "lookup") ≡ (
    contains reader.tools (codes "ti" ++ name_separator ∷ codes "lookup")
    || granted reader.grants (codes "ti") (codes "lookup"))
unfolding validate_role has_byte
allows-granted_example = allows-granted reader (codes "ti") (codes "lookup") refl refl (λ e. cc)

authorize-some_group_example :
    authorize policy analyst lookup ≡ some_group policy (λ r. allows r lookup) analyst.groups
authorize-some_group_example = authorize-some_group policy analyst lookup

contains-allowed_tools_example :
    contains (allowed_tools policy analyst (lookup ∷ codes "edr.isolate" ∷ [])) lookup
    ≡ (contains (lookup ∷ codes "edr.isolate" ∷ []) lookup && authorize policy analyst lookup)
contains-allowed_tools_example =
    contains-allowed_tools policy analyst (lookup ∷ codes "edr.isolate" ∷ []) lookup

new_policy-IsPolicy_example : IsPolicy policy × (policy.group_to_role ≡ groups)
unfolding new_policy
new_policy-IsPolicy_example = new_policy-IsPolicy (reader ∷ responder ∷ []) groups {p = policy} refl
