-- ===== src/Access/Policy.antt =====
-- NewPolicy, RolesFor, Authorize, AuthorizeNonRead and AllowedTools.
use gatte.Base.{
  Bool, false, ◌&&◌, Text, text_eq, text_le, contains, ◌++◌, if◌then◌else◌, List, [], ◌∷◌, sort,
  Option, none, some, Result, ok, err, ◌>>=◌, map, any,
}
use gatte.Access.{Role, allows, allows_explicitly}
use gatte.Access.Validate.{RoleError, GroupError, validate_role, validate_group_name}

pub record Identity : Type 0 where
  pub subject : Text
  pub name : Text
  pub groups : List Text

pub record Policy : Type 0 where
  pub roles : List Role
  pub group_to_role : List (Text × Text)

pub data PolicyError : Type 0 where
  invalid_role : List RoleError → PolicyError
  duplicate_role : Text → PolicyError
  invalid_group : List GroupError → PolicyError
  no_such_role : Text → Text → PolicyError

-- A lookup in the map of roles by name.
unfoldable pub find_role : List Role → Text → Option Role
unfolding text_eq
find_role [] name = none
find_role (r ∷ rs) name = if text_eq r.name name then some r else find_role rs name

unfoldable pub find_group : List (Text × Text) → Text → Option Text
unfolding text_eq
find_group [] group = none
find_group ((g, role) ∷ m) group = if text_eq g group then some role else find_group m group

-- The loop over the roles; `by_name` holds those accepted before.
unfoldable pub add_roles : List Role → List Role → Result PolicyError (List Role)
unfolding validate_role find_role
add_roles by_name [] = ok by_name
add_roles by_name (r ∷ rs) =
    let rest = add_roles (by_name ++ r ∷ []) rs in
    elim (validate_role r) [
      | e ∷ es ↦ err (invalid_role (e ∷ es))
      | [] ↦ elim (find_role by_name r.name) [ some s ↦ err (duplicate_role r.name) | none ↦ rest ]
    ]

unfoldable pub add_groups : List Role → List (Text × Text) → Result PolicyError (List (Text × Text))
unfolding validate_group_name find_role
add_groups by_name [] = ok []
add_groups by_name ((group, role) ∷ m) =
    let rest = add_groups by_name m in
    elim (validate_group_name group) [
      | e ∷ es ↦ err (invalid_group (e ∷ es))
      | [] ↦ elim (find_role by_name role) [
        | none ↦ err (no_such_role group role)
        | some r ↦ rest >>= λ mapping. ok ((group, role) ∷ mapping)
      ]
    ]

unfoldable pub new_policy : List Role → List (Text × Text) → Result PolicyError Policy
unfolding add_roles add_groups
new_policy roles group_to_role = do
  by_name ← add_roles [] roles
  mapping ← add_groups by_name group_to_role
  ok (record { roles = by_name; group_to_role = mapping })

-- The names of the roles that the groups map to, each once.
unfoldable pub role_names : Policy → List Text → List Text → List Text
unfolding find_group contains
role_names p names [] = names
role_names p names (g ∷ gs) =
    role_names p
      (elim (find_group p.group_to_role g) [
        | none ↦ names
        | some role ↦ if contains names role then names else names ++ role ∷ []
      ])
      gs

abbrev no_role : Role
no_role = record { name = []; tools = []; grants = []; non_read = false }

-- `p.roles[n]`, the zero role on a missing key.
unfoldable pub role_at : Policy → Text → Role
unfolding find_role
role_at p name = elim (find_role p.roles name) [ none ↦ no_role | some r ↦ r ]

unfoldable pub roles_for : Policy → Identity → List Role
unfolding role_names role_at text_le
roles_for p id = map (role_at p) (sort text_le (role_names p [] id.groups))

-- A true answer is the source's nil error, a false one its ErrForbidden.
unfoldable pub authorize : Policy → Identity → Text → Bool
unfolding roles_for allows
authorize p id tool = any (λ r. allows r tool) (roles_for p id)

unfoldable pub authorize_non_read : Policy → Identity → Text → Bool
unfolding roles_for allows_explicitly
authorize_non_read p id tool = any (λ r. r.non_read && allows_explicitly r tool) (roles_for p id)

-- The loop of AllowedTools over what is advertised.
unfoldable pub collect_allowed : List Role → List Text → List Text → List Text
unfolding allows contains
collect_allowed roles out [] = out
collect_allowed roles out (tool ∷ tools) =
    collect_allowed roles
      (if contains out tool
        then out
        else if any (λ r. allows r tool) roles
        then out ++ tool ∷ []
        else out)
      tools

unfoldable pub allowed_tools : Policy → Identity → List Text → List Text
unfolding roles_for collect_allowed text_le
allowed_tools p id advertised = sort text_le (collect_allowed (roles_for p id) [] advertised)
