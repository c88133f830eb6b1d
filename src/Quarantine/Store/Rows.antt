-- ===== src/Quarantine/Store/Rows.antt =====
-- The rows of the quarantined tools under an update of one of them.
use gatte.Base.{
  ◌≡◌, refl, ap, subst, true, false, List, [], ◌∷◌, Text, text_eq_iff, none, some, inl, inr, ◌⊎◌,
  All, any, arith, Bool-cases, ok,
}
use gatte.Quarantine.{Tool}
use gatte.Quarantine.Store.{
  is_named, find_row, set_columns, update, updated, names_hash, is_referenced,
}

abbrev pub IsUnnamed : Text → Text → Tool → Type 0
IsUnnamed server tool t = is_named server tool t ≡ false

-- The primary key.
abbrev pub IsKeyed : List Tool → Type 0
IsKeyed [] = Unit
IsKeyed (t ∷ ts) = All (IsUnnamed t.server_name t.tool_name) ts × IsKeyed ts

pub found_names :
    (server tool : Text) (ts : List Tool) (t : Tool)
    → find_row server tool ts ≡ some t
    → (t.server_name ≡ server) × (t.tool_name ≡ tool)
unfolding find_row is_named
found_names server tool [] t e = absurd cc
found_names server tool (u ∷ ts) t e = elim (Bool-cases (is_named server tool u)) [
  | inl named ↦
      let found : u ≡ t = ground (arith, named, e) in
      subst (λ r. (r.server_name ≡ server) × (r.tool_name ≡ tool)) found
        (
          ground (arith, named, text_eq_iff u.server_name server),
          ground (arith, named, text_eq_iff u.tool_name tool),
        )
  | inr other ↦ found_names server tool ts t (ground (arith, other, e))
]

update_absent :
    (next : Tool) (ts : List Tool)
    → All (IsUnnamed next.server_name next.tool_name) ts
    → update next ts ≡ ts
unfolding update is_named
update_absent next [] h = refl
update_absent next (t ∷ ts) h = rw (update, h.0) (ap (λ r. t ∷ r) (update_absent next ts h.1))

same_name :
    (next t : Tool)
    → is_named next.server_name next.tool_name t ≡ true
    → (t.server_name ≡ next.server_name) × (t.tool_name ≡ next.tool_name)
unfolding is_named
same_name next t e = (
  ground (arith, e, text_eq_iff t.server_name next.server_name),
  ground (arith, e, text_eq_iff t.tool_name next.tool_name),
)

-- A hash that some row names is named after the update, unless the updated row named it.
pub is_referenced-update :
    (next prev : Tool) (ts : List Tool) (h : Text)
    → IsKeyed ts
    → find_row next.server_name next.tool_name ts ≡ some prev
    → is_referenced h ts ≡ true
    → (is_referenced h (update next ts) ≡ true) ⊎ (names_hash h prev ≡ true)
unfolding is_referenced update find_row names_hash
is_referenced-update next prev [] h k e r = absurd cc
is_referenced-update next prev (t ∷ ts) h k e r =
    elim (Bool-cases (is_named next.server_name next.tool_name t)) [
      | inl named ↦
          let names = same_name next t named in
          let rest : update next ts ≡ ts = update_absent next ts (
            subst (λ q. All (IsUnnamed next.server_name q) ts) names.1
              (subst (λ q. All (IsUnnamed q t.tool_name) ts) names.0 k.0)) in
          let found : t ≡ prev = ground (arith, named, e) in
          elim (Bool-cases (names_hash h t)) [
            | inl names_t ↦ inr (subst (λ q. names_hash h q ≡ true) found names_t)
            | inr silent ↦ inl (ground (arith, silent, r, rest))
          ]
      | inr other ↦ elim (Bool-cases (names_hash h t)) [
        | inl names_t ↦ inl (ground (arith, other, names_t))
        | inr silent ↦
            elim (is_referenced-update next prev ts h k.1 (ground (arith, other, e))
              (ground (arith, silent, r))) [
                | inl later ↦ inl (ground (arith, other, later))
                | inr gone ↦ inr gone
              ]
      ]
    ]

-- After the update some row carries what was written.
pub is_referenced_next :
    (next prev : Tool) (ts : List Tool) (h : Text)
    → find_row next.server_name next.tool_name ts ≡ some prev
    → names_hash h next ≡ true
    → is_referenced h (update next ts) ≡ true
unfolding is_referenced update find_row names_hash
is_referenced_next next prev [] h e n = absurd cc
is_referenced_next next prev (t ∷ ts) h e n =
    elim (Bool-cases (is_named next.server_name next.tool_name t)) [
      | inl named ↦ ground (arith, named, n)
      | inr other ↦
          ground (arith, other, is_referenced_next next prev ts h (ground (arith, other, e)) n)
    ]

pub update-All :
    (P : Tool → Type 0) (next : Tool) (ts : List Tool)
    → ((t : Tool) → is_named next.server_name next.tool_name t ≡ true → P (set_columns next t))
    → All P ts
    → All P (update next ts)
unfolding update
update-All P next [] f h = tt
update-All P next (t ∷ ts) f h = elim (Bool-cases (is_named next.server_name next.tool_name t)) [
  | inl named ↦ rw (update, named) (f t named, update-All P next ts f h.1)
  | inr other ↦ rw (update, other) (h.0, update-All P next ts f h.1)
]

IsUnnamed-update :
    (next : Tool) (ts : List Tool) (server tool : Text)
    → All (IsUnnamed server tool) ts
    → All (IsUnnamed server tool) (update next ts)
unfolding update is_named
IsUnnamed-update next [] server tool h = tt
IsUnnamed-update next (t ∷ ts) server tool h =
    (ground (arith, h.0), IsUnnamed-update next ts server tool h.1)

pub update-IsKeyed : (next : Tool) (ts : List Tool) → IsKeyed ts → IsKeyed (update next ts)
unfolding update
update-IsKeyed next [] h = tt
update-IsKeyed next (t ∷ ts) h =
    let rest = update-IsKeyed next ts h.1 in
    let others = IsUnnamed-update next ts t.server_name t.tool_name h.0 in
    elim (Bool-cases (is_named next.server_name next.tool_name t)) [
      | inl named ↦ rw (update, named) (others, rest)
      | inr other ↦ rw (update, other) (others, rest)
    ]

pub updated_ok :
    (next : Tool) (ts ts' : List Tool) → updated next ts ≡ ok ts' → ts' ≡ update next ts
unfolding updated
updated_ok next ts ts' e = elim (Bool-cases (any (is_named next.server_name next.tool_name) ts)) [
  | inl there ↦ ground (arith, e, there)
  | inr missing ↦ ground (arith, e, missing)
]

pub find_row-All :
    (P : Tool → Type 0) (server tool : Text) (ts : List Tool) (t : Tool)
    → All P ts
    → find_row server tool ts ≡ some t
    → P t
unfolding find_row
find_row-All P server tool [] t h e = absurd cc
find_row-All P server tool (u ∷ ts) t h e = elim (Bool-cases (is_named server tool u)) [
  | inl named ↦ let found : u ≡ t = ground (arith, named, e) in subst P found h.0
  | inr other ↦ find_row-All P server tool ts t h.1 (ground (arith, other, e))
]

-- A row that is missing names nothing.
pub missing-All :
    (server tool : Text) (ts : List Tool)
    → find_row server tool ts ≡ none
    → All (IsUnnamed server tool) ts
unfolding find_row
missing-All server tool [] e = tt
missing-All server tool (t ∷ ts) e = elim (Bool-cases (is_named server tool t)) [
  | inl named ↦ absurd (ground (arith, named, e))
  | inr other ↦ (other, missing-All server tool ts (ground (arith, other, e)))
]
