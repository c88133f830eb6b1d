-- ===== src/Access/Decisions.antt =====
-- What a policy decides, against descriptions that neither sort nor remove repetitions.
use gatte.Base.{
  ◌≡◌, ◌∙◌, Bool, true, false, ◌&&◌, ◌||◌, Text, text_eq, text_eq_iff, text_eq→eq, subst, text_le,
  contains, contains-append, contains-sort, ◌++◌, if◌then◌else◌, List, [], ◌∷◌, none, some, arith,
  Bool-cases, any, any-sort, any-map, any-append, any_of_contains, sort, Option-cases, inl, inr,
}
use gatte.Access.{Role, allows, allows_explicitly}
use gatte.Access.Policy.{
  Identity, Policy, find_group, role_names, role_at, roles_for, authorize, authorize_non_read,
  collect_allowed, allowed_tools,
}

-- Some group of the caller maps to a role that passes the test.
pub some_group : Policy → (Role → Bool) → List Text → Bool
some_group p test [] = false
some_group p test (g ∷ gs) =
    (elim (find_group p.group_to_role g) [ none ↦ false | some role ↦ test (role_at p role) ])
    || some_group p test gs

any-role_names :
    (p : Policy) (test : Role → Bool) (names groups : List Text)
    → any (λ n. test (role_at p n)) (role_names p names groups)
      ≡ (any (λ n. test (role_at p n)) names || some_group p test groups)
unfolding role_names some_group
any-role_names p test names [] = ground arith
any-role_names p test names (g ∷ gs) = elim (Option-cases (find_group p.group_to_role g)) [
  | inl e ↦ rw e (any-role_names p test names gs)
  | inr (role, e) ↦ elim (Bool-cases (contains names role)) [
    | inl old ↦ ground (
      arith,
      e,
      old,
      any-role_names p test names gs,
      any_of_contains (λ n. test (role_at p n)) names role old,
    )
    | inr new ↦ ground (
      arith,
      e,
      new,
      any-role_names p test (names ++ role ∷ []) gs,
      any-append (λ n. test (role_at p n)) names (role ∷ []),
    )
  ]
]

any-roles_for :
    (p : Policy) (test : Role → Bool) (id : Identity)
    → any test (roles_for p id) ≡ some_group p test id.groups
unfolding roles_for
any-roles_for p test id =
    any-map test (role_at p) (sort text_le (role_names p [] id.groups))
    ∙ any-sort (λ n. test (role_at p n)) text_le (role_names p [] id.groups)
    ∙ any-role_names p test [] id.groups

-- An identity may call a tool exactly if one of its groups maps to a role that allows it; an identity
-- without a mapped group may call nothing.
pub authorize-some_group :
    (p : Policy) (id : Identity) (tool : Text)
    → authorize p id tool ≡ some_group p (λ r. allows r tool) id.groups
unfolding authorize
authorize-some_group p id tool = any-roles_for p (λ r. allows r tool) id

abbrev extended : List Role → List Text → Text → List Text
extended roles out t =
    if contains out t then out else if any (λ r. allows r t) roles then out ++ t ∷ [] else out

contains-extended_self :
    (roles : List Role) (out : List Text) (t : Text)
    → contains (extended roles out t) t ≡ (contains out t || any (λ r. allows r t) roles)
unfolding contains
contains-extended_self roles out t = ground (arith, contains-append out (t ∷ []) t, text_eq_iff t t)

contains-extended :
    (roles : List Role) (out : List Text) (t tool : Text)
    → contains (extended roles out t) tool
      ≡ (contains out tool || text_eq t tool && any (λ r. allows r tool) roles)
unfolding contains
contains-extended roles out t tool = elim (Bool-cases (text_eq t tool)) [
  | inl e ↦ rw e (
      subst
        (λ (u : Text).
          contains (extended roles out t) u ≡ (contains out u || any (λ r. allows r u) roles))
        (text_eq→eq t tool e) (contains-extended_self roles out t))
  | inr e ↦ ground (arith, e, contains-append out (t ∷ []) tool)
]

contains-collect_allowed :
    (roles : List Role) (out advertised : List Text) (tool : Text)
    → contains (collect_allowed roles out advertised) tool
      ≡ (contains out tool || contains advertised tool && any (λ r. allows r tool) roles)
unfolding collect_allowed
contains-collect_allowed roles out [] tool = ground arith
contains-collect_allowed roles out (t ∷ ts) tool = ground (
  arith,
  contains-extended roles out t tool,
  contains-collect_allowed roles (extended roles out t) ts tool,
)

-- The list that a caller is shown holds a name exactly if it is advertised and the policy authorizes
-- the caller for it: what may be called is listed, and what is listed may be called.
pub contains-allowed_tools :
    (p : Policy) (id : Identity) (advertised : List Text) (tool : Text)
    → contains (allowed_tools p id advertised) tool
      ≡ (contains advertised tool && authorize p id tool)
unfolding allowed_tools authorize
contains-allowed_tools p id advertised tool =
    contains-sort text_le (collect_allowed (roles_for p id) [] advertised) tool
    ∙ contains-collect_allowed (roles_for p id) [] advertised tool

-- The narrower question of the class gate: some role that a group maps to is marked and
-- lists the name in its flat list; no grant of any role has a part in it.
pub authorize_non_read-some_group :
    (p : Policy) (id : Identity) (tool : Text)
    → authorize_non_read p id tool
      ≡ some_group p (λ r. r.non_read && contains r.tools tool) id.groups
unfolding authorize_non_read allows_explicitly
authorize_non_read-some_group p id tool =
    any-roles_for p (λ r. r.non_read && contains r.tools tool) id

some_group_mono :
    (p : Policy) (f g : Role → Bool) (groups : List Text)
    → ((r : Role) → f r ≡ true → g r ≡ true)
    → some_group p f groups ≡ true
    → some_group p g groups ≡ true
unfolding some_group
some_group_mono p f g [] imp h = cc
some_group_mono p f g (x ∷ xs) imp h = elim (Option-cases (find_group p.group_to_role x)) [
  | inl e ↦ ground (arith, e, some_group_mono p f g xs imp)
  | inr (role, e) ↦ ground (arith, e, imp (role_at p role), some_group_mono p f g xs imp)
]

marked_names :
    (r : Role) (tool : Text) → (r.non_read && contains r.tools tool) ≡ true → allows r tool ≡ true
unfolding allows
marked_names r tool h = ground arith

-- Whoever passes the class gate's question also passes the general one.
pub authorize_non_read-authorize :
    (p : Policy) (id : Identity) (tool : Text)
    → authorize_non_read p id tool ≡ true
    → authorize p id tool ≡ true
authorize_non_read-authorize p id tool h = rw (authorize-some_group p id tool) (
    some_group_mono p (λ r. r.non_read && contains r.tools tool) (λ r. allows r tool) id.groups
      (λ r. marked_names r tool) (rw (authorize_non_read-some_group p id tool) at h))
