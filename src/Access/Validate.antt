-- ===== src/Access/Validate.antt =====
-- ValidateRole, validateGrants and ValidateGroupName: every broken rule, in the order in which the
-- source reports them.
use gatte.Base.{
  Bool, ◌&&◌, not, Text, text_eq, text_le, contains, has_byte, is_blank, is_trimmed, ◌++◌,
  if◌then◌else◌, List, [], ◌∷◌, sort, length, ltb, when,
}
use gatte.Access.{Role, grant_all, name_separator}

pub data RoleError : Type 0 where
  name_untrimmed name_empty : RoleError
  tool_untrimmed tool_empty : Text → RoleError
  backend_empty backend_untrimmed backend_wildcard backend_namespaced : Text → RoleError
  wildcard_not_alone : Text → RoleError
  id_empty id_untrimmed id_namespaced id_repeated : Text → Text → RoleError

unfoldable pub tool_errors : List Text → List RoleError
unfolding is_blank is_trimmed
tool_errors [] = []
tool_errors (tool ∷ tools) =
    when (not (is_trimmed tool)) (tool_untrimmed tool)
    ++ (when (is_blank tool) (tool_empty tool) ++ tool_errors tools)

-- The `switch` on a grant's key.
unfoldable pub backend_errors : Text → List RoleError
unfolding is_blank is_trimmed text_eq has_byte
backend_errors backend =
    if is_blank backend
    then backend_empty backend ∷ []
    else if not (is_trimmed backend)
    then backend_untrimmed backend ∷ []
    else if text_eq backend grant_all
    then backend_wildcard backend ∷ []
    else if has_byte name_separator backend
    then backend_namespaced backend ∷ []
    else []

-- The loop over a grant's tool ids; `seen` holds those that were accepted before.
unfoldable pub id_errors : Text → List Text → List Text → List RoleError
unfolding is_blank is_trimmed text_eq has_byte contains
id_errors backend seen [] = []
id_errors backend seen (id ∷ ids) =
    let skip = id_errors backend seen ids in
    let keep = id_errors backend (id ∷ seen) ids in
    if is_blank id
    then id_empty backend id ∷ skip
    else if not (is_trimmed id)
    then id_untrimmed backend id ∷ skip
    else if text_eq id grant_all
    then skip
    else if has_byte name_separator id
    then id_namespaced backend id ∷ skip
    else when (contains seen id) (id_repeated backend id) ++ keep

unfoldable pub grant_errors : List (Text × List Text) → List RoleError
unfolding backend_errors id_errors contains
grant_errors [] = []
grant_errors ((backend, ids) ∷ grants) =
    backend_errors backend
    ++ (when (contains ids grant_all && ltb 1 (length ids)) (wildcard_not_alone backend)
        ++ (id_errors backend [] ids ++ grant_errors grants))

abbrev pub by_backend : Text × List Text → Text × List Text → Bool
by_backend a b = text_le a.0 b.0

unfoldable pub validate_grants : Role → List RoleError
unfolding grant_errors text_le
validate_grants r = grant_errors (sort by_backend r.grants)

-- An empty list is the source's nil error.
unfoldable pub validate_role : Role → List RoleError
unfolding is_blank is_trimmed tool_errors validate_grants
validate_role r =
    when (not (is_trimmed r.name)) name_untrimmed
    ++ (when (is_blank r.name) name_empty ++ (tool_errors r.tools ++ validate_grants r))

pub data GroupError : Type 0 where
  group_empty group_untrimmed : GroupError

unfoldable pub validate_group_name : Text → List GroupError
unfolding is_blank is_trimmed
validate_group_name group =
    if is_blank group
    then group_empty ∷ []
    else if not (is_trimmed group)
    then group_untrimmed ∷ []
    else []
