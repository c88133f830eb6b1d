-- ===== src/Audit/Table/Written.antt =====
-- Histories of writes, the latest first, whatever calls of the database fail.
use gatte.Base.{
  ◌≡◌, refl, sym, ap, ◌∙◌, Bool, true, false, not, ◌&&◌, ◌||◌, List, [], ◌∷◌, Result, ok, err, none,
  some, inl, inr, length, All, map, select, arith, List-cases, if◌then◌else◌, Bool-cases,
}
use gatte.Quota.{Time}
use gatte.Audit.{Record, validate}
use gatte.Audit.Chain.{chain_hash, canonical, Shown, shown}
use gatte.Audit.Table.{
  Platform, StoredRow, Table, ChainLink, WriteError, invalid, write_failed, WriteFaults, append_row,
  record_chained, newest_hash, VerifyFaults, ChainCheck, verify_chain,
}
use gatte.Audit.Table.Linked.{IsLinked, verify_chain-IsAnswer}
use gatte.Audit.Table.Sealed.{content}

-- A time whose text is read back as a time of the same text, as RFC3339 is of the years 0 to 9999.
pub record IsReadable (p : Platform) (t : Time) : Type 0 where
  pub again : Time
  pub reads : p.parse (p.format t) ≡ ok again
  pub same_text : p.format again ≡ p.format t

abbrev is_nil {ℓ} : {A : Type ℓ} → List A → Bool
is_nil [] = true
is_nil (x ∷ xs) = false

-- What a write needs to be stored.
unfoldable pub is_stored : Platform → WriteFaults × Record → Bool
unfolding validate
is_stored p (f, r) =
    is_nil (validate p.hidden_table r)
    && not (f.begin_fails || f.head_fails || f.insert_fails || f.commit_fails)

unfoldable pub write_all : Platform → Table → List (WriteFaults × Record) → Table
unfolding record_chained
write_all p t [] = t
write_all p t ((f, r) ∷ earlier) = (record_chained p f r (write_all p t earlier)).0

-- The ways out of a write.
pub data Written (p : Platform) (w : WriteFaults × Record) (t : Table)
    : Table × Result WriteError ChainLink → Type 0 where
  stored : is_stored p w ≡ true → Written p w t (append_row p t w.1)
  refused : (e : WriteError) → is_stored p w ≡ false → Written p w t (t, err e)

-- A write stores exactly one row, at the end of the chain, or answers an error and changes nothing.
pub record_chained-Written :
    (p : Platform) (f : WriteFaults) (r : Record) (t : Table)
    → Written p (f, r) t (record_chained p f r t)
unfolding record_chained is_stored
record_chained-Written p f r t = elim (List-cases (validate p.hidden_table r)) [
  | inr (e, es, broken) ↦
      rw (record_chained, broken) (refused (invalid (e ∷ es)) (rw (is_stored, broken) refl))
  | inl valid ↦
      elim (Bool-cases (f.begin_fails || f.head_fails || f.insert_fails || f.commit_fails)) [
        | inl fails ↦
            rw (record_chained, valid, fails)
              (refused write_failed (rw (is_stored, valid, fails) refl))
        | inr works ↦ rw (record_chained, valid, works) (stored (rw (is_stored, valid, works) refl))
      ]
]

append_row-IsLinked :
    (p : Platform) (t : Table) (r : Record)
    → IsReadable p r.timestamp
    → IsLinked p t.rows
    → IsLinked p (append_row p t r).0.rows
unfolding append_row chain_hash canonical
append_row-IsLinked p t r h l =
    (record { time = h.again; reads = h.reads; behind = refl; covers = rw h.same_text refl }, l)

append_row-content :
    (p : Platform) (t : Table) (r : Record)
    → IsReadable p r.timestamp
    → map (content p) (append_row p t r).0.rows ≡ shown p.format r ∷ map (content p) t.rows
unfolding append_row
append_row-content p t r h = rw (h.reads, h.same_text) refl

abbrev HasReadableTime : Platform → WriteFaults × Record → Type 0
HasReadableTime p w = IsReadable p w.1.timestamp

-- The table after a history: linked, and holding exactly the records that were stored.
abbrev Holds : Platform → Table → List Shown → Type 0
Holds p t shows = IsLinked p t.rows × (map (content p) t.rows ≡ shows)

write-Holds :
    (p : Platform) (w : WriteFaults × Record) (t : Table) (shows : List Shown)
    → HasReadableTime p w
    → Holds p t shows
    → (o : Table × Result WriteError ChainLink) → Written p w t o
    → Holds p o.0 (if is_stored p w then shown p.format w.1 ∷ shows else shows)
write-Holds p w t shows h k _ (stored e) = rw e (
  append_row-IsLinked p t w.1 h k.0,
  append_row-content p t w.1 h ∙ ap (λ l. shown p.format w.1 ∷ l) k.1,
)
write-Holds p w t shows h k _ (refused x e) = rw e k

abbrev pub fresh : Table
fresh = record { rows = []; last_id = 0; boundary = some 0 }

abbrev pub stored_records : Platform → List (WriteFaults × Record) → List Shown
stored_records p ws = map (λ w. shown p.format w.1) (select (is_stored p) ws)

write_all-Holds :
    (p : Platform) (ws : List (WriteFaults × Record))
    → All (HasReadableTime p) ws
    → Holds p (write_all p fresh ws) (stored_records p ws)
unfolding write_all
write_all-Holds p [] h = (tt, refl)
write_all-Holds p ((f, r) ∷ ws) h =
    let t = write_all p fresh ws in
    let k =
      write-Holds p (f, r) t (stored_records p ws) h.0 (write_all-Holds p ws h.1)
        (record_chained p f r t) (record_chained-Written p f r t) in
    elim (Bool-cases (is_stored p (f, r))) [
      | inl kept ↦ rw kept (rw kept at k)
      | inr dropped ↦ rw dropped (rw dropped at k)
    ]

-- What a verification finds of a trail that only writes have changed.
pub record IsRecorded (p : Platform) (shows : List Shown) (rows : List StoredRow)
    (check : ChainCheck) : Type 0 where
  pub intact : check.first_break ≡ none
  pub counts : check.count ≡ length shows
  pub head : check.head ≡ newest_hash rows
  pub contents : map (content p) rows ≡ shows

length-map : (p : Platform) (rows : List StoredRow) → length (map (content p) rows) ≡ length rows
length-map p [] = refl
length-map p (row ∷ rows) = omega (arith, length-map p rows)

-- From a fresh table, after writes in any order of records whose times can be read back, and whatever
-- calls failed at them: a verification that answers finds the chain intact, and its rows are exactly
-- the valid records whose transactions went through, in their order.
pub write_all-IsRecorded :
    (p : Platform) (f : VerifyFaults) (ws : List (WriteFaults × Record)) (check : ChainCheck)
    → All (HasReadableTime p) ws
    → verify_chain p f (write_all p fresh ws) ≡ ok check
    → IsRecorded p (stored_records p ws) (write_all p fresh ws).rows check
write_all-IsRecorded p f ws check h e =
    let t = write_all p fresh ws in
    let k = write_all-Holds p ws h in
    let a = verify_chain-IsAnswer p f t check e in
    let intact = a.linked_intact k.0 in
    record {
      intact = intact;
      counts = a.counts intact ∙ sym (length-map p t.rows) ∙ ap (length {A = Shown}) k.1;
      head = a.newest intact;
      contents = k.1;
    }
