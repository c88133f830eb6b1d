-- ===== src/Access/Blocks/Rows.antt =====
-- The table of blocks under its two statements: the upsert and the delete.
use gatte.Base.{
  ◌≡◌, refl, subst, Bool, true, false, ◌&&◌, List, [], ◌∷◌, Text, text_eq, text_eq_iff, text_eq→eq,
  if◌then◌else◌, Option, none, some, inl, inr, All, arith, Bool-cases,
}
use gatte.Access.Blocks.{BlockRow, row_at, has_ended, upsert, delete_where}

abbrev IsOther : Text → BlockRow → Type 0
IsOther s row = text_eq row.subject s ≡ false

-- The primary key.
abbrev pub IsKeyed : List BlockRow → Type 0
IsKeyed [] = Unit
IsKeyed (row ∷ rows) = All (IsOther row.subject) rows × IsKeyed rows

abbrev pub takes : Text → Option BlockRow → Bool
takes now none = true
takes now (some row) = has_ended now row

pub upsert-flag :
    (now : Text) (new : BlockRow) (rows : List BlockRow)
    → (upsert now new rows).1 ≡ takes now (row_at new.subject rows)
unfolding upsert row_at
upsert-flag now new [] = refl
upsert-flag now new (row ∷ rows) = ground (arith, upsert-flag now new rows)

pub row_at-upsert :
    (now : Text) (new : BlockRow) (rows : List BlockRow) (s : Text)
    → row_at s (upsert now new rows).0 ≡ (
        if takes now (row_at new.subject rows) && text_eq new.subject s
        then some new
        else row_at s rows)
unfolding upsert row_at
row_at-upsert now new [] s = ground arith
row_at-upsert now new (row ∷ rows) s = ground (
  arith,
  row_at-upsert now new rows s,
  text_eq_iff row.subject new.subject,
  text_eq_iff row.subject s,
  text_eq_iff new.subject s,
)

pub upsert-All :
    (P : BlockRow → Type 0) (now : Text) (new : BlockRow) (rows : List BlockRow)
    → P new
    → All P rows
    → All P (upsert now new rows).0
unfolding upsert
upsert-All P now new [] pn h = (pn, tt)
upsert-All P now new (row ∷ rows) pn h = ground (arith, upsert-All P now new rows)

IsOther-swap : (s t : Text) → text_eq s t ≡ false → text_eq t s ≡ false
IsOther-swap s t h = ground (arith, text_eq_iff s t, text_eq_iff t s)

pub upsert-IsKeyed :
    (now : Text) (new : BlockRow) (rows : List BlockRow)
    → IsKeyed rows
    → IsKeyed (upsert now new rows).0
unfolding upsert
upsert-IsKeyed now new [] h = (tt, tt)
upsert-IsKeyed now new (row ∷ rows) h = elim (Bool-cases (text_eq row.subject new.subject)) [
  | inr differ ↦
      rw (upsert, differ)
        (
          upsert-All (IsOther row.subject) now new rows
              (IsOther-swap row.subject new.subject differ) h.0,
          upsert-IsKeyed now new rows h.1,
        )
  | inl same ↦ elim (Bool-cases (has_ended now row)) [
    | inr active ↦ rw (upsert, same, active) h
    | inl ended ↦
        rw (upsert, same, ended)
          (subst (λ s. All (IsOther s) rows) (text_eq→eq row.subject new.subject same) h.0, h.1)
  ]
]

absent : (s : Text) (rows : List BlockRow) → All (IsOther s) rows → row_at s rows ≡ none
unfolding row_at
absent s [] h = refl
absent s (row ∷ rows) h = rw (row_at, h.0) (absent s rows h.1)

pub delete_where-All :
    (P : BlockRow → Type 0) (doomed : BlockRow → Bool) (rows : List BlockRow)
    → All P rows
    → All P (delete_where doomed rows).0
unfolding delete_where
delete_where-All P doomed [] h = tt
delete_where-All P doomed (row ∷ rows) h = elim (Bool-cases (doomed row)) [
  | inl gone ↦ rw (delete_where, gone) (delete_where-All P doomed rows h.1)
  | inr stays ↦ rw (delete_where, stays) (h.0, delete_where-All P doomed rows h.1)
]

pub delete_where-IsKeyed :
    (doomed : BlockRow → Bool) (rows : List BlockRow)
    → IsKeyed rows
    → IsKeyed (delete_where doomed rows).0
unfolding delete_where
delete_where-IsKeyed doomed [] h = tt
delete_where-IsKeyed doomed (row ∷ rows) h = elim (Bool-cases (doomed row)) [
  | inl gone ↦ rw (delete_where, gone) (delete_where-IsKeyed doomed rows h.1)
  | inr stays ↦
      rw (delete_where, stays)
        (
          delete_where-All (IsOther row.subject) doomed rows h.0,
          delete_where-IsKeyed doomed rows h.1,
        )
]

abbrev pub spared : (BlockRow → Bool) → Option BlockRow → Option BlockRow
spared doomed none = none
spared doomed (some row) = if doomed row then none else some row

pub row_at-delete_where :
    (doomed : BlockRow → Bool) (rows : List BlockRow) (s : Text)
    → IsKeyed rows
    → row_at s (delete_where doomed rows).0 ≡ spared doomed (row_at s rows)
unfolding row_at delete_where
row_at-delete_where doomed [] s h = refl
row_at-delete_where doomed (row ∷ rows) s h =
    let ih = row_at-delete_where doomed rows s h.1 in
    elim (Bool-cases (text_eq row.subject s)) [
      | inr other ↦ ground (arith, other, ih)
      | inl same ↦
          let rest : row_at s rows ≡ none =
            absent s rows (subst (λ q. All (IsOther q) rows) (text_eq→eq row.subject s same) h.0) in
          ground (arith, same, rest, ih)
    ]

pub row_at-All :
    (P : BlockRow → Type 0) (rows : List BlockRow) (s : Text) (row : BlockRow)
    → All P rows
    → row_at s rows ≡ some row
    → P row
unfolding row_at
row_at-All P [] s row h e = absurd cc
row_at-All P (first ∷ rows) s row h e = elim (Bool-cases (text_eq first.subject s)) [
  | inl same ↦ let found : first ≡ row = ground (arith, same, e) in subst P found h.0
  | inr other ↦ row_at-All P rows s row h.1 (ground (arith, other, e))
]

pub row_at-subject :
    (rows : List BlockRow) (s : Text) (row : BlockRow) → row_at s rows ≡ some row → row.subject ≡ s
unfolding row_at
row_at-subject [] s row e = absurd cc
row_at-subject (first ∷ rows) s row e = elim (Bool-cases (text_eq first.subject s)) [
  | inl same ↦
      let found : first ≡ row = ground (arith, same, e) in
      subst (λ r. r.subject ≡ s) found (text_eq→eq first.subject s same)
  | inr other ↦ row_at-subject rows s row (ground (arith, other, e))
]
