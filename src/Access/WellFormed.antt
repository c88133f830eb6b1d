-- ===== src/Access/WellFormed.antt =====
-- What `new_policy` guarantees of the policy that it returns.
use gatte.Base.{
  ◌≡◌, ◌≢◌, refl, sym, Text, text_eq_iff, subst, ◌++◌, List, [], ◌∷◌, Option, none, some, All,
  All-append, arith, Result, ok, err,
}
use gatte.Access.{Role}
use gatte.Access.Validate.{RoleError, GroupError, validate_role, validate_group_name}
use gatte.Access.Policy.{Policy, PolicyError, find_role, add_roles, add_groups, new_policy}

-- No two roles share a name.
abbrev pub HasDistinctNames : List Role → Type 0
HasDistinctNames [] = Unit
HasDistinctNames (r ∷ rs) = All (λ s. r.name ≢ s.name) rs × HasDistinctNames rs

-- A policy as `new_policy` builds it: every role is well-formed, no two share a name, and every
-- group stands for a role that is there.
pub record IsPolicy (p : Policy) : Type 0 where
  pub roles_valid : All (λ r. validate_role r ≡ []) p.roles
  pub names_distinct : HasDistinctNames p.roles
  pub groups_mapped :
      All (λ m. (validate_group_name m.0 ≡ []) × (find_role p.roles m.1 ≢ none)) p.group_to_role

abbrev Valid : Role → Type 0
Valid r = validate_role r ≡ []

ok-injective : {A : Type 0} {a b : A} → (let r : Result PolicyError A = ok a in r) ≡ ok b → a ≡ b
ok-injective e = cc

-- One more role: it is well-formed and new, or the call is refused.
added :
    (by_name : List Role) (r : Role) (rs : List Role) {out : List Role}
    → add_roles by_name (r ∷ rs) ≡ ok out
    → Valid r × (find_role by_name r.name ≡ none) × (add_roles (by_name ++ r ∷ []) rs ≡ ok out)
unfolding add_roles
added by_name r rs {out} e = go (validate_role r) refl (find_role by_name r.name) refl
  where
    go :
        (es : List RoleError)
        → validate_role r ≡ es
        → (found : Option Role) → find_role by_name r.name ≡ found
        → Valid r × (find_role by_name r.name ≡ none) × (add_roles (by_name ++ r ∷ []) rs ≡ ok out)
    go (x ∷ xs) h found g = ground (arith, h)
    go [] h (some s) g = ground (arith, h, g)
    go [] h none g = (h, g, ground (arith, h, g))

-- A role of a name that is not there keeps the names apart.
distinct-append :
    (by_name : List Role) (r : Role)
    → HasDistinctNames by_name
    → find_role by_name r.name ≡ none
    → HasDistinctNames (by_name ++ r ∷ [])
unfolding find_role
distinct-append [] r d g = (tt, tt)
distinct-append (s ∷ by_name) r d g =
    let other : s.name ≢ r.name = λ same. ground (arith, g, text_eq_iff s.name r.name) in
    let rest : find_role by_name r.name ≡ none = ground (arith, g, text_eq_iff s.name r.name) in
    (
      All-append (λ x. s.name ≢ x.name) by_name (r ∷ []) d.0 (other, tt),
      distinct-append by_name r d.1 rest,
    )

add_roles-Valid :
    (by_name roles : List Role) {out : List Role}
    → All Valid by_name
    → HasDistinctNames by_name
    → add_roles by_name roles ≡ ok out
    → All Valid out × HasDistinctNames out
unfolding add_roles
add_roles-Valid by_name [] v d e =
    subst (λ rs. All Valid rs × HasDistinctNames rs) (ok-injective e) (v, d)
add_roles-Valid by_name (r ∷ rs) v d e =
    let (valid, new, rest) = added by_name r rs e in
    add_roles-Valid (by_name ++ r ∷ []) rs (All-append Valid by_name (r ∷ []) v (valid, tt))
      (distinct-append by_name r d new) rest

abbrev Mapped : List Role → Text × Text → Type 0
Mapped roles m = (validate_group_name m.0 ≡ []) × (find_role roles m.1 ≢ none)

add_groups-Mapped :
    (roles : List Role) (m : List (Text × Text)) {out : List (Text × Text)}
    → add_groups roles m ≡ ok out
    → All (Mapped roles) m × (out ≡ m)
unfolding add_groups
add_groups-Mapped roles [] e = (tt, sym (ok-injective e))
add_groups-Mapped roles ((group, role) ∷ m) {out} e =
    go (validate_group_name group) refl (find_role roles role) refl (add_groups roles m) refl
      (λ mapping k. add_groups-Mapped roles m {out = mapping} k)
  where
    go :
        (es : List GroupError)
        → validate_group_name group ≡ es
        → (found : Option Role) → find_role roles role ≡ found
        → (rest : Result PolicyError (List (Text × Text))) → add_groups roles m ≡ rest
        → ((mapping : List (Text × Text))
            → add_groups roles m ≡ ok mapping
            → All (Mapped roles) m × (mapping ≡ m))
        → All (Mapped roles) ((group, role) ∷ m) × (out ≡ (group, role) ∷ m)
    go (x ∷ xs) h found g rest k ih = ground (arith, h)
    go [] h none g rest k ih = ground (arith, h, g)
    go [] h (some r) g (err x) k ih = ground (arith, h, g, k)
    go [] h (some r) g (ok mapping) k ih =
        let (mapped, same) = ih mapping k in
        (((h, λ missing. ground (arith, g)), mapped), ground (arith, h, g, k, same))

-- A policy that `new_policy` returns has well-formed roles of distinct names, maps groups only to roles
-- that are there, and keeps the mapping it was given.
pub new_policy-IsPolicy :
    (roles : List Role) (group_to_role : List (Text × Text)) {p : Policy}
    → new_policy roles group_to_role ≡ ok p
    → IsPolicy p × (p.group_to_role ≡ group_to_role)
unfolding new_policy
new_policy-IsPolicy roles group_to_role {p} e = go (add_roles [] roles) refl
  where
    go :
        (r : Result PolicyError (List Role))
        → add_roles [] roles ≡ r
        → IsPolicy p × (p.group_to_role ≡ group_to_role)
    go (err x) h = ground (arith, h)
    go (ok by_name) h = inner (add_groups by_name group_to_role) refl
      where
        inner :
            (m : Result PolicyError (List (Text × Text)))
            → add_groups by_name group_to_role ≡ m
            → IsPolicy p × (p.group_to_role ≡ group_to_role)
        inner (err x) k = ground (arith, h, k)
        inner (ok mapping) k =
            let (mapped, same) = add_groups-Mapped by_name group_to_role k in
            let made : p ≡ record { roles = by_name; group_to_role = mapping } =
              ground (arith, h, k) in
            let built = add_roles-Valid [] roles tt tt h in
            rw (made, same)
              (
                record { roles_valid = built.0; names_distinct = built.1; groups_mapped = mapped },
                refl,
              )
