-- ===== src/Quarantine/Store/Bulk/Told.antt =====
-- A bulk approval leaves what the approvals that it answers leave one by one.
use gatte.Base.{
  ◌≡◌, ◌≢◌, refl, sym, ap, subst, ◌∙◌, ℕ, false, ◌&&◌, List, [], ◌∷◌, Text, text_eq, text_eq_iff,
  text_eq_refl, ok, inl, inr, All, Bool-cases, Result-cases, arith,
}
use gatte.Quarantine.{Tool, approved_fingerprint, approve}
use gatte.Quarantine.Review.{Approval, approved_set}
use gatte.Quarantine.Store.{
  Shelf, Faults, find_row, get, scanned, moved, updated, update, prune, prune_both, is_named,
  approve_fingerprint, change,
}
use gatte.Quarantine.Store.Rows.{IsKeyed, IsUnnamed, updated_ok}
use gatte.Quarantine.Store.Lookup.{find_row-update_other}
use gatte.Quarantine.Store.Kept.{prune_tools}
use gatte.Quarantine.Store.Sets.{
  Approvals, approvals_of, approve_review_set, apply_approvals, list_tools,
}
use gatte.Quarantine.Store.Evidence.{StoreEvent, transact, shelf_after, shelf_after-IsShelf}
use gatte.Quarantine.Store.Bulk.{
  BulkAct, single, store_approves_set, BulkEvent, bulk_transact, shelf_of, no_faults, told_approval,
  told_approvals, told_answer, told_act, told,
}
use gatte.Quarantine.Store.Bulk.Keys.{IsFound}
use gatte.Quarantine.Store.Bulk.Ready.{
  IsScanned, IsReady, IsMade, befores, approved_set-IsMade, review_set-IsReady, list_tools-IsReady,
  IsReady-select,
}

module _ (sha256 : Text → Text) (now : ℕ) where
  told_step :
      (s : Shelf) (a : Approval) (ts : List Tool)
      → IsFound s.tools a.before
      → IsScanned a.before
      → IsMade now a
      → updated a.after s.tools ≡ ok ts
      → transact sha256 now no_faults (told_approval now a).act s
        ≡ prune_both a.before.approved_hash a.before.observed_hash (record s { tools = ts })
  unfolding transact approve_fingerprint change get moved scanned
  told_step s a ts found scans made e = ground (arith, found, scans, made, e)

  made_names :
      (a : Approval)
      → IsMade now a
      → (a.after.server_name ≡ a.before.server_name) × (a.after.tool_name ≡ a.before.tool_name)
  unfolding approved_fingerprint approve
  made_names a made =
      let same : approve a.before now ≡ a.after =
        ground (arith, made, text_eq_refl a.before.observed_hash) in
      (ap (λ (t : Tool). t.server_name) (sym same), ap (λ (t : Tool). t.tool_name) (sym same))

  pruned_update :
      (s : Shelf) (a : Approval) (p q : Text) (ts : List Tool)
      → updated a.after s.tools ≡ ok ts
      → (prune_both p q (record s { tools = ts })).tools ≡ update a.after s.tools
  pruned_update s a p q ts e =
      prune_tools q (prune p (record s { tools = ts }))
      ∙ prune_tools p (record s { tools = ts })
      ∙ updated_ok a.after s.tools ts e

  apart :
      (a : Approval) (t : Tool)
      → IsMade now a
      → IsUnnamed a.before.server_name a.before.tool_name t
      → (text_eq a.after.server_name t.server_name && text_eq a.after.tool_name t.tool_name) ≡ false
  unfolding is_named
  apart a t made h =
      let names = made_names a made in
      rw (names.0, names.1)
        (ground (
          arith,
          h,
          text_eq_iff t.server_name a.before.server_name,
          text_eq_iff a.before.server_name t.server_name,
          text_eq_iff t.tool_name a.before.tool_name,
          text_eq_iff a.before.tool_name t.tool_name,
        ))

  still_found :
      (s : Shelf) (a : Approval) (p q : Text) (ts rest : List Tool)
      → IsMade now a
      → updated a.after s.tools ≡ ok ts
      → All (IsUnnamed a.before.server_name a.before.tool_name) rest
      → All (IsFound s.tools) rest
      → All (IsFound (prune_both p q (record s { tools = ts })).tools) rest
  still_found s a p q ts [] made e h k = tt
  still_found s a p q ts (t ∷ rest) made e h k = (
    ap (find_row t.server_name t.tool_name) (pruned_update s a p q ts e)
        ∙ find_row-update_other t.server_name t.tool_name a.after s.tools (apart a t made h.0)
        ∙ k.0,
    still_found s a p q ts rest made e h.1 k.1,
  )

  told_approvals-apply_approvals :
      (approvals : List Approval) (s s' : Shelf) (earlier : List StoreEvent)
      → shelf_after sha256 earlier ≡ s
      → IsReady s (befores approvals)
      → All (IsMade now) approvals
      → apply_approvals approvals s ≡ ok s'
      → shelf_after sha256 (told_approvals now approvals earlier) ≡ s'
  unfolding apply_approvals told_approvals shelf_after
  told_approvals-apply_approvals [] s s' earlier start r m e = start ∙ ground (arith, e)
  told_approvals-apply_approvals (a ∷ rest) s s' earlier start r m e =
      elim (Result-cases (updated a.after s.tools)) [
        | inl (x, refused) ↦ absurd (ground (arith, refused, e))
        | inr (ts, done) ↦
            let s1 =
              prune_both a.before.approved_hash a.before.observed_hash (record s { tools = ts }) in
            told_approvals-apply_approvals rest s1 s' (told_approval now a ∷ earlier)
              (ap (transact sha256 now no_faults (told_approval now a).act) start
                ∙ told_step s a ts r.found.0 r.scans.0 m.0 done)
              (record {
                keyed = r.keyed.1;
                found =
                    still_found s a a.before.approved_hash a.before.observed_hash ts (befores rest)
                      m.0 done r.keyed.0 r.found.1;
                scans = r.scans.1;
              })
              m.1 (ground (arith, done, e))
      ]

module _ (sha256 : Text → Text) (f : Faults) (server shown : Text) (now : ℕ) (s : Shelf)
    (earlier : List StoreEvent) (start : shelf_after sha256 earlier ≡ s)
    (keyed : IsKeyed s.tools) where
  told_approvals_of :
      (a : Approvals)
      → approvals_of sha256 server shown now s ≡ ok a
      → shelf_after sha256 (told_approvals now a.approvals earlier) ≡ a.shelf
  unfolding approvals_of
  told_approvals_of a e = elim (Result-cases (list_tools server s.tools)) [
    | inl (x, refused) ↦ absurd (ground (arith, refused, e))
    | inr (tools, listed) ↦ elim (Result-cases (approved_set sha256 server tools shown now)) [
      | inl (x, refused) ↦ absurd (ground (arith, listed, refused, e))
      | inr (approvals, set) ↦ elim (Result-cases (apply_approvals approvals s)) [
        | inl (x, refused) ↦ absurd (ground (arith, listed, set, refused, e))
        | inr (s', done) ↦
            let made = approved_set-IsMade sha256 server tools shown now approvals set in
            let ready = review_set-IsReady s _ (
              IsReady-select s (λ t. text_eq t.server_name server) tools
                (list_tools-IsReady s server tools keyed listed)) in
            let result : record { approvals = approvals; shelf = s' } ≡ a =
              ground (arith, listed, set, done, e) in
            subst
              (λ (r : Approvals).
                shelf_after sha256 (told_approvals now r.approvals earlier) ≡ r.shelf)
              result
              (told_approvals-apply_approvals sha256 now approvals s s' earlier start
                (subst (IsReady s) (sym made.0) ready) made.1 done)
      ]
    ]
  ]

  told_answer-approve_review_set :
      shelf_after sha256
        (told_answer now (approve_review_set sha256 f server shown now s).1 earlier)
      ≡ (approve_review_set sha256 f server shown now s).0
  unfolding approve_review_set
  told_answer-approve_review_set = elim (Bool-cases f.read_fails) [
    | inl fails ↦ rw fails start
    | inr reads ↦ elim (Result-cases (approvals_of sha256 server shown now s)) [
      | inl (x, refused) ↦ rw (reads, refused) start
      | inr (a, done) ↦ elim (Bool-cases f.write_fails) [
        | inl fails ↦ rw (reads, done, fails) start
        | inr writes ↦ rw (reads, done, writes) (told_approvals_of a done)
      ]
    ]
  ]

module _ (sha256 : Text → Text) (digest : (t : Text) → sha256 t ≢ []) where
  told_act-bulk_transact :
      (now : ℕ) (f : Faults) (act : BulkAct) (earlier : List StoreEvent)
      → shelf_after sha256 (told_act sha256 now f act (shelf_after sha256 earlier) earlier)
        ≡ bulk_transact sha256 now f act (shelf_after sha256 earlier)
  unfolding told_act bulk_transact shelf_after
  told_act-bulk_transact now f (single act) earlier = refl
  told_act-bulk_transact now f (store_approves_set server shown) earlier =
      told_answer-approve_review_set sha256 f server shown now (shelf_after sha256 earlier) earlier
        refl (shelf_after-IsShelf sha256 digest earlier).keyed

  -- Where no digest is empty: a history with bulk approvals leaves the shelf that the history leaves in
  -- which each of them is told as the approvals of single tools that it answers.
  pub shelf_after-told :
      (evs : List BulkEvent) → shelf_after sha256 (told sha256 evs) ≡ shelf_of sha256 evs
  unfolding told shelf_of shelf_after
  shelf_after-told [] = refl
  shelf_after-told (ev ∷ earlier) =
      subst
        (λ s.
          shelf_after sha256 (told_act sha256 ev.now ev.faults ev.act s (told sha256 earlier))
          ≡ bulk_transact sha256 ev.now ev.faults ev.act s)
        (shelf_after-told earlier)
        (told_act-bulk_transact ev.now ev.faults ev.act (told sha256 earlier))
