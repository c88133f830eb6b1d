-- ===== src/Access/Grants.antt =====
-- A grant reaches the tools of its own backend only.
use gatte.Base.{
  ◌≡◌, ◌≢◌, refl, ap, Bool, false, ◌&&◌, ◌||◌, Text, text_eq, contains, has_byte,
  cut_prefix-namespaced, ◌++◌, List, [], ◌∷◌, All, All-of_sort, arith,
}
use gatte.Access.{Role, grant_all, name_separator, grant_matches, any_grant, allows}
use gatte.Access.Validate.{
  validate_role, validate_grants, backend_errors, grant_errors, tool_errors, by_backend,
}

-- The tool `id` is granted on the backend `upstream`: by the key of that name alone.
pub granted : List (Text × List Text) → Text → Text → Bool
granted [] upstream id = false
granted ((backend, ids) ∷ grants) upstream id =
    text_eq backend upstream && (contains ids grant_all || contains ids id)
    || granted grants upstream id

abbrev IsPlain : Text × List Text → Type 0
IsPlain g = has_byte name_separator g.0 ≡ false

any_grant-granted :
    (grants : List (Text × List Text)) (upstream id : Text)
    → All IsPlain grants
    → has_byte name_separator upstream ≡ false
    → id ≢ []
    → any_grant grants (upstream ++ name_separator ∷ id) ≡ granted grants upstream id
unfolding any_grant grant_matches granted
any_grant-granted [] upstream id plain hu ne = refl
any_grant-granted ((backend, ids) ∷ grants) upstream id plain hu ne =
    rw (cut_prefix-namespaced name_separator backend upstream id plain.0 hu, grant_matches)
      (ground (arith, any_grant-granted grants upstream id plain.1 hu ne))

append-nil_parts {ℓ} : {A : Type ℓ} (xs ys : List A) → xs ++ ys ≡ [] → (xs ≡ []) × (ys ≡ [])
append-nil_parts [] ys e = (refl, e)
append-nil_parts (x ∷ xs) ys e = cc

backend_errors-plain :
    (backend : Text) → backend_errors backend ≡ [] → has_byte name_separator backend ≡ false
unfolding backend_errors
backend_errors-plain backend e = ground arith

grant_errors-IsPlain :
    (grants : List (Text × List Text)) → grant_errors grants ≡ [] → All IsPlain grants
unfolding grant_errors
grant_errors-IsPlain [] e = tt
grant_errors-IsPlain ((backend, ids) ∷ grants) e =
    let first = append-nil_parts (backend_errors backend) _ e in
    let second = append-nil_parts _ _ first.1 in
    let third = append-nil_parts _ _ second.1 in
    (backend_errors-plain backend first.0, grant_errors-IsPlain grants third.1)

-- For a role that `validate_role` accepts, and a name made of an upstream without the separator and
-- a tool that is not empty, `allows` holds exactly if the role lists the name, or has a grant whose
-- key is that very upstream and which lists the tool or the wildcard.
pub allows-granted :
    (r : Role) (upstream id : Text)
    → validate_role r ≡ []
    → has_byte name_separator upstream ≡ false
    → id ≢ []
    → allows r (upstream ++ name_separator ∷ id)
      ≡ (contains r.tools (upstream ++ name_separator ∷ id) || granted r.grants upstream id)
unfolding allows validate_role validate_grants
allows-granted r upstream id valid hu ne =
    let a = append-nil_parts _ _ valid in
    let b = append-nil_parts _ _ a.1 in
    let c = append-nil_parts (tool_errors r.tools) _ b.1 in
    ap (λ g. contains r.tools (upstream ++ name_separator ∷ id) || g)
      (any_grant-granted r.grants upstream id
        (All-of_sort IsPlain by_backend r.grants (grant_errors-IsPlain _ c.1)) hu ne)
