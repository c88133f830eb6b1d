-- ===== src/Quarantine/Store/Lookup.antt =====
-- What a look-up finds after each statement on the rows of the quarantined tools.
use gatte.Base.{
  ◌≡◌, refl, ap, ◌∙◌, subst, true, false, not, ◌&&◌, List, [], ◌∷◌, ◌++◌, Text, text_eq,
  text_eq_iff, if◌then◌else◌, none, some, inl, inr, any, select, arith, Bool-cases,
}
use gatte.Quarantine.{Tool}
use gatte.Quarantine.Store.{is_named, find_row, set_columns, update}

module _ (server tool : Text) where
  pub find_row-append :
      (ts : List Tool) (new : Tool)
      → find_row server tool ts ≡ none
      → find_row server tool (ts ++ new ∷ [])
        ≡ (if is_named server tool new then some new else none)
  unfolding find_row
  find_row-append [] new e = refl
  find_row-append (t ∷ ts) new e = elim (Bool-cases (is_named server tool t)) [
    | inl named ↦ absurd (ground (arith, named, e))
    | inr other ↦ ground (arith, other, find_row-append ts new (ground (arith, other, e)))
  ]

  pub find_row-append_other :
      (ts : List Tool) (new : Tool)
      → is_named server tool new ≡ false
      → find_row server tool (ts ++ new ∷ []) ≡ find_row server tool ts
  unfolding find_row
  find_row-append_other [] new e = ground (arith, e)
  find_row-append_other (t ∷ ts) new e = ground (arith, find_row-append_other ts new e)

  -- The row of an upstream that is forgotten is gone, and every other stays.
  pub find_row-forgotten :
      (q : Text) (ts : List Tool)
      → find_row server tool (select (λ t. not (text_eq t.server_name q)) ts)
        ≡ (if text_eq q server then none else find_row server tool ts)
  unfolding find_row is_named
  find_row-forgotten q [] = ground arith
  find_row-forgotten q (t ∷ ts) = ground (
    arith,
    find_row-forgotten q ts,
    text_eq_iff t.server_name q,
    text_eq_iff t.server_name server,
    text_eq_iff q server,
  )

  named_set : (next t : Tool) → is_named server tool (set_columns next t) ≡ is_named server tool t
  unfolding is_named
  named_set next t = refl

  -- An update reaches the row of its key alone.
  pub find_row-update :
      (next : Tool) (ts : List Tool) (prev : Tool)
      → find_row server tool ts ≡ some prev
      → next.server_name ≡ server
      → next.tool_name ≡ tool
      → find_row server tool (update next ts) ≡ some (set_columns next prev)
  unfolding find_row update
  find_row-update next [] prev e a b = absurd cc
  find_row-update next (t ∷ ts) prev e a b = elim (Bool-cases (is_named server tool t)) [
    | inl named ↦
        let found : t ≡ prev = ground (arith, named, e) in
        let named_next : is_named next.server_name next.tool_name t ≡ true =
          ap (λ q. is_named q next.tool_name t) a ∙ ap (λ q. is_named server q t) b ∙ named in
        subst (λ r. find_row server tool (update next (t ∷ ts)) ≡ some (set_columns next r)) found
          (rw (update, named_next) (rw (named_set next t, named) refl))
    | inr other ↦
        let other_next : is_named next.server_name next.tool_name t ≡ false =
          ap (λ q. is_named q next.tool_name t) a ∙ ap (λ q. is_named server q t) b ∙ other in
        rw (update, other_next)
          (rw other (find_row-update next ts prev (ground (arith, other, e)) a b))
  ]

  pub find_row-update_other :
      (next : Tool) (ts : List Tool)
      → (text_eq next.server_name server && text_eq next.tool_name tool) ≡ false
      → find_row server tool (update next ts) ≡ find_row server tool ts
  unfolding find_row update is_named
  find_row-update_other next [] e = refl
  find_row-update_other next (t ∷ ts) e = ground (
    arith,
    e,
    find_row-update_other next ts e,
    text_eq_iff t.server_name server,
    text_eq_iff t.server_name next.server_name,
    text_eq_iff next.server_name server,
    text_eq_iff t.tool_name tool,
    text_eq_iff t.tool_name next.tool_name,
    text_eq_iff next.tool_name tool,
  )

pub any_found :
    (server tool : Text) (ts : List Tool) (t : Tool)
    → find_row server tool ts ≡ some t
    → any (is_named server tool) ts ≡ true
unfolding find_row
any_found server tool [] t e = absurd cc
any_found server tool (u ∷ ts) t e = elim (Bool-cases (is_named server tool u)) [
  | inl named ↦ ground (arith, named)
  | inr other ↦ ground (arith, other, any_found server tool ts t (ground (arith, other, e)))
]
