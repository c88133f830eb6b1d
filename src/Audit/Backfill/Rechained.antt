-- ===== src/Audit/Backfill/Rechained.antt =====
-- What the backfill does to hashed and to unhashed rows.
use gatte.Base.{
  ◌≡◌, refl, sym, ap, ◌∙◌, subst, Bool, if◌then◌else◌, ◌>>=◌, true, false, ◌||◌, List, [], ◌∷◌,
  ◌++◌, Text, if_false, none, Result, ok, err, inl, inr, Bool-cases, Result-cases, All, map, arith,
}
use gatte.Audit.Chain.{chain_hash}
use gatte.Audit.Table.{Platform, StoredRow, Table, record_of, newest_hash}
use gatte.Audit.Table.Linked.{IsLinked}
use gatte.Audit.Table.Sealed.{content}
use gatte.Audit.Backfill.{
  BackfillFaults, BackfillError, backfill_failed, read_unhashed, is_unhashed, tail_hash, Rechain,
  rehashed, rechain, rechained, backfill_chain, chained_before,
}

abbrev pub IsHashed : StoredRow → Type 0
IsHashed row = is_unhashed row.hash ≡ false

abbrev pub IsUnhashed : StoredRow → Type 0
IsUnhashed row = is_unhashed row.hash ≡ true

-- Rows that have a hash are never hashed again.
hashed_kept :
    (p : Platform) (f : BackfillFaults) (prev : Text) (rows : List StoredRow)
    → All IsHashed rows
    → rechain p f prev rows ≡ ok (record { rows = rows; prev = prev; last = 0 })
unfolding rechain
hashed_kept p f prev [] h = refl
hashed_kept p f prev (row ∷ older) h = rw (hashed_kept p f prev older h.1, h.0) refl

tail_hash-append :
    (new old : List StoredRow)
    → All IsUnhashed new
    → All IsHashed old
    → tail_hash (new ++ old) ≡ newest_hash old
unfolding tail_hash
tail_hash-append [] [] h k = refl
tail_hash-append [] (row ∷ old) h k = rw k.0 refl
tail_hash-append (row ∷ new) old h k = rw h.0 (tail_hash-append new old h.1 k)

-- What the walk has made of the rows behind it.
pub record IsRechain (p : Platform) (rows : List StoredRow) (c : Rechain) : Type 0 where
  pub linked : IsLinked p c.rows
  pub end : c.prev ≡ newest_hash c.rows
  pub contents : map (content p) c.rows ≡ map (content p) rows

rehashed-IsRechain :
    (p : Platform) (row : StoredRow) (rows : List StoredRow) (c c' : Rechain)
    → IsRechain p rows c
    → rehashed p row c ≡ ok c'
    → IsRechain p (row ∷ rows) c'
unfolding rehashed
rehashed-IsRechain p row rows c c' h e = elim (Result-cases (p.parse row.timestamp)) [
  | inl (why, bad) ↦ absurd (ground (arith, bad, e))
  | inr (time, reads) ↦
      let new = chain_hash p.sha256 p.format c.prev (record_of row time) in
      let made : Rechain = record {
        rows = record row { prev_hash = c.prev; hash = new } ∷ c.rows;
        prev = new;
        last = row.id;
      } in
      let same : made ≡ c' = ground (arith, e, reads) in
      subst (IsRechain p (row ∷ rows)) same (record {
        linked = (record { time = time; reads = reads; behind = h.end; covers = refl }, h.linked);
        end = refl;
        contents = ap (λ l. content p row ∷ l) h.contents;
      })
]

rechain-IsRechain :
    (p : Platform) (f : BackfillFaults) (new old : List StoredRow) (c : Rechain)
    → All IsUnhashed new
    → All IsHashed old
    → IsLinked p old
    → rechain p f (newest_hash old) (new ++ old) ≡ ok c
    → IsRechain p (new ++ old) c
unfolding rechain
rechain-IsRechain p f [] old c h k l e =
    let same : record { rows = old; prev = newest_hash old; last = 0 } ≡ c =
      ground (arith, hashed_kept p f (newest_hash old) old k, e) in
    subst (IsRechain p old) same (record { linked = l; end = refl; contents = refl })
rechain-IsRechain p f (row ∷ new) old c h k l e =
    elim (Result-cases (rechain p f (newest_hash old) (new ++ old))) [
      | inl (x, bad) ↦ absurd (ground (arith, bad, e))
      | inr (c0, done) ↦
          let ih = rechain-IsRechain p f new old c0 h.1 k l done in
          elim (Bool-cases (f.update_fails row.id)) [
            | inl fails ↦ absurd (ground (arith, done, h.0, fails, e))
            | inr works ↦
                rehashed-IsRechain p row (new ++ old) c0 c ih (ground (arith, done, h.0, works, e))
          ]
    ]

rechained-IsLinked :
    (p : Platform) (t t' : Table) (r : Result BackfillError Rechain)
    → ((c : Rechain) → r ≡ ok c → IsRechain p t.rows c)
    → rechained t r ≡ (t', ok tt)
    → IsLinked p t'.rows × (map (content p) t'.rows ≡ map (content p) t.rows)
rechained-IsLinked p t t' (err x) h e = let bad : err x ≡ ok tt = ap (λ w. w.1) e in absurd cc
rechained-IsLinked p t t' (ok c) h e =
    let made = h c refl in
    let same : c.rows ≡ t'.rows = ap (λ w. w.0.rows) e in
    (subst (IsLinked p) same made.linked, ap (map (content p)) (sym same) ∙ made.contents)

refused_not_ok :
    {t t' : Table} {x : BackfillError}
    → ◌≡◌ {A = Table × Result {0} BackfillError Unit} (t, err x) (t', ok tt)
    → ⊥
refused_not_ok {t} {t'} {x} e = let bad : err x ≡ ok tt = ap (λ w. w.1) e in absurd cc

steps_ok :
    (first : Result {0} BackfillError Unit) (a b : Bool) (r : Result BackfillError Rechain)
    {c : Rechain}
    → (first >>= (λ u.
        if a then err backfill_failed else r >>= (λ c. if b then err backfill_failed else ok c)))
      ≡ ok c
    → r ≡ ok c
steps_ok (err x) a b r e = absurd cc
steps_ok (ok u) true b r e = absurd cc
steps_ok (ok u) false b (err x) e = absurd cc
steps_ok (ok u) false true (ok c) e = absurd cc
steps_ok (ok u) false false (ok c) e = e

-- Over a table with no recorded boundary, whose unhashed rows stand behind hashed and linked ones, the
-- backfill that answers ok leaves every row linked, with the contents as they were.
pub backfill_chain-IsLinked :
    (p : Platform) (f : BackfillFaults) (t t' : Table) (new old : List StoredRow)
    → t.rows ≡ new ++ old
    → t.boundary ≡ none
    → All IsUnhashed new
    → All IsHashed old
    → IsLinked p old
    → backfill_chain p f t ≡ (t', ok tt)
    → IsLinked p t'.rows × (map (content p) t'.rows ≡ map (content p) t.rows)
unfolding backfill_chain
backfill_chain-IsLinked p f t t' new old rows first h k l e = elim (Bool-cases f.meta_fails) [
  | inl fails ↦ absurd (refused_not_ok (rw fails at e))
  | inr reads ↦ elim (Bool-cases (f.begin_fails || f.query_fails)) [
    | inl fails ↦ absurd (refused_not_ok (rw (reads, first, fails) at e))
    | inr works ↦
        rechained-IsLinked p t t' _
          (λ c done.
            subst (λ rs. IsRechain p rs c) (sym rows)
              (rechain-IsRechain p f new old c h k l (
                ap (λ q. rechain p f q (new ++ old)) (sym (tail_hash-append new old h k))
                ∙ ap (λ rs. rechain p f (tail_hash rs) rs) (sym rows)
                ∙ steps_ok (read_unhashed p f t.rows) (f.rows_fail || f.head_fails)
                    (f.insert_fails || f.commit_fails) (rechain p f (tail_hash t.rows) t.rows)
                    done)))
          (sym (
              if_false f.meta_fails _ _ reads
              ∙ if_false (chained_before t.boundary) _ _ (ap chained_before first)
              ∙ if_false (f.begin_fails || f.query_fails) _ _ works)
            ∙ e)
  ]
]

hashed_read :
    (p : Platform) (f : BackfillFaults) (rows : List StoredRow)
    → All IsHashed rows
    → read_unhashed p f rows ≡ ok tt
unfolding read_unhashed
hashed_read p f [] h = refl
hashed_read p f (row ∷ older) h = rw (hashed_read p f older h.1, h.0) refl

-- Rows that all carry a hash stay as they are, whatever became of the record of the first backfill.
pub backfill_chain_kept :
    (p : Platform) (f : BackfillFaults) (t : Table)
    → All IsHashed t.rows
    → (backfill_chain p f t).0.rows ≡ t.rows
unfolding backfill_chain
backfill_chain_kept p f t h =
    ground (arith, hashed_kept p f (tail_hash t.rows) t.rows h, hashed_read p f t.rows h)
