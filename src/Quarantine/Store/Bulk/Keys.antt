-- ===== src/Quarantine/Store/Bulk/Keys.antt =====
-- Distinct keys under a selection and a sort, and the rows that a list of distinct keys finds.
use gatte.Base.{
  ◌≡◌, Bool, true, false, List, [], ◌∷◌, text_eq_iff, text_eq_refl, some, inl, inr, All, All-select,
  All-insert, All-sort, Bool-cases, arith, select, sort, insert,
}
use gatte.Quarantine.{Tool}
use gatte.Quarantine.Store.{is_named, find_row}
use gatte.Quarantine.Store.Rows.{IsKeyed, IsUnnamed}

abbrev pub IsFound : List Tool → Tool → Type 0
IsFound ts t = find_row t.server_name t.tool_name ts ≡ some t

is_named_sym :
    (t u : Tool)
    → is_named t.server_name t.tool_name u ≡ false
    → is_named u.server_name u.tool_name t ≡ false
unfolding is_named
is_named_sym t u e = ground (
  arith,
  e,
  text_eq_iff t.server_name u.server_name,
  text_eq_iff u.server_name t.server_name,
  text_eq_iff t.tool_name u.tool_name,
  text_eq_iff u.tool_name t.tool_name,
)

is_named_self : (t : Tool) → is_named t.server_name t.tool_name t ≡ true
unfolding is_named
is_named_self t = ground (arith, text_eq_refl t.server_name, text_eq_refl t.tool_name)

found_later :
    (t : Tool) (all ts : List Tool)
    → All (IsUnnamed t.server_name t.tool_name) ts
    → All (IsFound all) ts
    → All (IsFound (t ∷ all)) ts
unfolding find_row
found_later t all [] h k = tt
found_later t all (u ∷ ts) h k =
    (ground (arith, is_named_sym t u h.0, k.0), found_later t all ts h.1 k.1)

pub IsKeyed-found : (ts : List Tool) → IsKeyed ts → All (IsFound ts) ts
unfolding find_row
IsKeyed-found [] h = tt
IsKeyed-found (t ∷ ts) h =
    (ground (arith, is_named_self t), found_later t ts ts h.0 (IsKeyed-found ts h.1))

pub IsKeyed-select : (p : Tool → Bool) (ts : List Tool) → IsKeyed ts → IsKeyed (select p ts)
IsKeyed-select p [] h = tt
IsKeyed-select p (t ∷ ts) h = elim (Bool-cases (p t)) [
  | inl chosen ↦
      rw chosen (All-select (IsUnnamed t.server_name t.tool_name) p ts h.0, IsKeyed-select p ts h.1)
  | inr left ↦ rw left (IsKeyed-select p ts h.1)
]

IsKeyed-insert :
    (le : Tool → Tool → Bool) (x : Tool) (ys : List Tool)
    → All (IsUnnamed x.server_name x.tool_name) ys
    → IsKeyed ys
    → IsKeyed (insert le x ys)
IsKeyed-insert le x [] h k = (tt, tt)
IsKeyed-insert le x (y ∷ ys) h k = elim (Bool-cases (le x y)) [
  | inl first ↦ rw first (h, k)
  | inr later ↦ rw later (
    All-insert (IsUnnamed y.server_name y.tool_name) le x ys (is_named_sym x y h.0) k.0,
    IsKeyed-insert le x ys h.1 k.1,
  )
]

pub IsKeyed-sort : (le : Tool → Tool → Bool) (ts : List Tool) → IsKeyed ts → IsKeyed (sort le ts)
IsKeyed-sort le [] h = tt
IsKeyed-sort le (t ∷ ts) h =
    IsKeyed-insert le t (sort le ts) (All-sort (IsUnnamed t.server_name t.tool_name) le ts h.0)
      (IsKeyed-sort le ts h.1)
