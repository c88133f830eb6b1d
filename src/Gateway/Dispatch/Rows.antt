-- ===== src/Gateway/Dispatch/Rows.antt =====
-- The rows that one call leaves on the trail.
use gatte.Base.{
  ℕ, ◌≡◌, refl, ap, sym, ◌∙◌, true, false, Text, is_blank, Option, none, some, Option-cases,
  Bool-cases, inl, inr, if◌then◌else◌, List, [], ◌∷◌, ◌++◌,
}
use mathlib.Core.List.{append_assoc, append-nil}
use gatte.Gateway.{target_of}
use gatte.Gateway.Trail.{
  Caller, Reason, unexplained, Outcome, allowed, denied, failed, Row, Trail, row_of, record_row,
  unnamed_tool, audit_refusal, audit_failure, audit_gateway_row, Failure, classify_failure,
  gateway_caller,
}
use gatte.Gateway.Admit.{
  RoutedTool, BlockError, context_ended, blocked_subject, unreadable_blocklist,
}
use gatte.Gateway.Slots.{take_slot}
use gatte.Gateway.World.{
  World, State, Answer, conn_of, refused_block, mark_gone, holds_conn, backend_health_tool,
}
use gatte.Gateway.Dispatch.{dispatch, refuse, fail, refuse_blocked}
use gatte.Gateway.Dispatch.View.{
  View, blocked, refused, held, dispatch-View, with_slots, is_refusal, is_answered,
}
use gatte.Gateway.Dispatch.Finish.{
  Finish, served, failed_call, lost_backend, Held, unpaid, unwritten, left, paid, noted, departed,
  dispatch_held-Held,
}

-- A row of one outcome about one caller and one tool.
pub record IsRow (c : Caller) (tool : Text) (outcome : Outcome) (r : Row) : Type 0 where
  pub analyst : r.analyst ≡ c.identity.subject
  pub tool_named : r.tool ≡ tool
  pub outcome_is : r.outcome ≡ outcome
  pub source : r.source_address ≡ c.source_address

-- The name a refusal is written under.
abbrev pub shown_tool : Text → Text
shown_tool tool = if is_blank tool then unnamed_tool else tool

-- The rows that go with an answer, oldest first.
pub data RowsOf (c : Caller) (tool : Text) (a : Answer) : List Row → Type 0 where
  no_row : a ≡ refused_block context_ended → RowsOf c tool a []
  one_denied :
      (r : Row)
      → is_refusal a ≡ true
      → IsRow c (shown_tool tool) denied r
      → RowsOf c tool a (r ∷ [])
  one_allowed : (r : Row) → is_answered a ≡ true → IsRow c tool allowed r → RowsOf c tool a (r ∷ [])
  allowed_then_failed :
      (r r' : Row) (between : List Row)
      → is_refusal a ≡ false
      → is_answered a ≡ false
      → IsRow c tool allowed r
      → IsRow c tool failed r'
      → RowsOf c tool a (r ∷ between ++ r' ∷ [])

-- The rows that `s'` has more than `s`.
pub record Adds (P : List Row → Type 0) (s s' : State) : Type 0 where
  pub new : List Row
  pub appended : s'.trail.rows ≡ s.trail.rows ++ new
  pub described : P new

module _ (w : World) (writes : (n : ℕ) → w.ledger.fails n ≡ false) where
  -- A store that does not fail takes the row.
  record_row-rows :
      (c : Caller) (tool target : Text) (outcome : Outcome) (reason : Reason) (t : Trail)
      → (record_row w.ledger c tool target outcome reason t).0.rows
        ≡ t.rows ++ row_of w.ledger t.writes c tool target outcome reason ∷ []
  unfolding record_row
  record_row-rows c tool target outcome reason t = rw (record_row, writes t.writes)

  row_of-IsRow :
      (n : ℕ) (c : Caller) (tool target : Text) (outcome : Outcome) (reason : Reason)
      → IsRow c tool outcome (row_of w.ledger n c tool target outcome reason)
  row_of-IsRow n c tool target outcome reason = record {
    analyst = refl;
    tool_named = refl;
    outcome_is = refl;
    source = refl;
  }

  refuse-Adds :
      (c : Caller) (tool target : Text) (reason : Reason) (s : State) (a : Answer)
      → is_refusal a ≡ true
      → Adds (RowsOf c tool a) s (refuse w c tool target reason s)
  unfolding refuse audit_refusal
  refuse-Adds c tool target reason s a h = record {
    new = row_of w.ledger s.trail.writes c (shown_tool tool) target denied reason ∷ [];
    appended = record_row-rows c (shown_tool tool) target denied reason s.trail;
    described =
        one_denied _ h (row_of-IsRow s.trail.writes c (shown_tool tool) target denied reason);
  }

  refuse_blocked-Adds :
      (c : Caller) (tool target : Text) (e : BlockError) (s : State)
      → Adds (RowsOf c tool (refused_block e)) s (refuse_blocked w c tool target e s)
  unfolding refuse_blocked
  refuse_blocked-Adds c tool target blocked_subject s = refuse-Adds c tool target _ s _ refl
  refuse_blocked-Adds c tool target unreadable_blocklist s = refuse-Adds c tool target _ s _ refl
  refuse_blocked-Adds c tool target context_ended s = record {
    new = [];
    appended = sym (append-nil s.trail.rows);
    described = no_row refl;
  }

  -- A dead backend adds rows of the gateway's own, if any.
  mark_gone-rows :
      (name : Text) (conn : Option ℕ) (s : State)
      → (between : List Row) × ((mark_gone w name conn s).trail.rows ≡ s.trail.rows ++ between)
  unfolding mark_gone audit_gateway_row
  mark_gone-rows name none s = ([], sym (append-nil s.trail.rows))
  mark_gone-rows name (some n) s = elim (Bool-cases (holds_conn w.conns name n)) [
    | inr h ↦ ([], rw (mark_gone, h) (sym (append-nil s.trail.rows)))
    | inl h ↦ elim (Bool-cases (w.servable name)) [
      | inr k ↦ ([], rw (mark_gone, h, k) (sym (append-nil s.trail.rows)))
      | inl k ↦ elim (Option-cases w.observed_dead) [
        | inl l ↦ ([], rw (mark_gone, h, k, l) (sym (append-nil s.trail.rows)))
        | inr ((outcome, reason), l) ↦ (
          row_of w.ledger s.trail.writes gateway_caller backend_health_tool name outcome reason
              ∷ [],
          rw (mark_gone, h, k, l)
              (record_row-rows gateway_caller backend_health_tool name outcome reason s.trail),
        )
      ]
    ]
  ]

  -- The failed row, after an allowed row and what stands between them.
  fail-Adds :
      (c : Caller) (tool target : Text) (f : Failure) (s s' : State) (a : Answer) (r : Row)
      (between : List Row)
      → is_refusal a ≡ false
      → is_answered a ≡ false
      → IsRow c tool allowed r
      → s'.trail.rows ≡ s.trail.rows ++ r ∷ between
      → Adds (RowsOf c tool a) s (fail w c tool target f s')
  unfolding fail audit_failure
  fail-Adds c tool target f s s' a r between h k i e =
      let r' = row_of w.ledger s'.trail.writes c tool target failed (classify_failure f) in
      record {
        new = r ∷ between ++ r' ∷ [];
        appended =
            record_row-rows c tool target failed (classify_failure f) s'.trail
            ∙ ap (λ rows. rows ++ r' ∷ []) e
            ∙ append_assoc s.trail.rows (r ∷ between) (r' ∷ []);
        described =
            allowed_then_failed r r' between h k i
              (row_of-IsRow s'.trail.writes c tool target failed (classify_failure f));
      }

  -- From the allowed row on.
  finish-Adds :
      (c : Caller) (tool args : Text) (rt : RoutedTool) (conn : Option ℕ) (s : State)
      (r : State × Answer)
      → Finish w c tool rt conn (departed rt args (noted w c tool rt (paid w c tool s))) r
      → Adds (RowsOf c tool r.1) s r.0
  finish-Adds c tool args rt conn s _ (served res notice) = record {
    new = _;
    appended = record_row-rows c tool rt.route.upstream allowed unexplained s.trail;
    described =
        one_allowed _ refl
          (row_of-IsRow s.trail.writes c tool rt.route.upstream allowed unexplained);
  }
  finish-Adds c tool args rt conn s _ (failed_call f a h k) =
      fail-Adds c tool rt.route.upstream f s _ a _ [] h k
        (row_of-IsRow s.trail.writes c tool rt.route.upstream allowed unexplained)
        (record_row-rows c tool rt.route.upstream allowed unexplained s.trail)
  finish-Adds c tool args rt conn s _ (lost_backend f a h k) =
      let sent = departed rt args (noted w c tool rt (paid w c tool s)) in
      let (between, e) = mark_gone-rows rt.route.upstream conn sent in
      let r = row_of w.ledger s.trail.writes c tool rt.route.upstream allowed unexplained in
      fail-Adds c tool rt.route.upstream f s (mark_gone w rt.route.upstream conn sent) a r between h
        k (row_of-IsRow s.trail.writes c tool rt.route.upstream allowed unexplained)
        (e
          ∙ ap (λ rows. rows ++ between)
              (record_row-rows c tool rt.route.upstream allowed unexplained s.trail)
          ∙ append_assoc s.trail.rows (r ∷ []) between)

  Held-Adds :
      (c : Caller) (tool args : Text) (rt : RoutedTool) (conn : Option ℕ) (s : State)
      (r : State × Answer)
      → Held w c tool args rt conn s r
      → Adds (RowsOf c tool r.1) s r.0
  Held-Adds c tool args rt conn s _ (unpaid reason a h q) =
      let d = refuse-Adds c tool rt.route.upstream reason (paid w c tool s) a h in
      record { new = d.new; appended = d.appended; described = d.described }
  Held-Adds c tool args rt conn s _ (unwritten q f) = let g = writes s.trail.writes in absurd cc
  Held-Adds c tool args rt conn s _ (left r q f fin) = finish-Adds c tool args rt conn s r fin

  View-Adds :
      (c : Caller) (tool args : Text) (s : State) (r : State × Answer)
      → View w c tool args s r
      → Adds (RowsOf c tool r.1) s r.0
  View-Adds c tool args s _ (blocked e h) = refuse_blocked-Adds c tool (target_of tool) e s
  View-Adds c tool args s _ (refused target reason a h n) = refuse-Adds c tool target reason s a h
  View-Adds c tool args s _ (held rt p) =
      let d =
        Held-Adds c tool args rt (conn_of w.conns rt.route.upstream)
          (with_slots s (take_slot s.slots c.identity.subject)) _
          (dispatch_held-Held w c tool args rt _ _) in
      record { new = d.new; appended = d.appended; described = d.described }

  -- Where the audit store takes every row, a call adds to the trail exactly one denied row if it is
  -- refused, exactly one allowed row if it is answered, and an allowed row followed in the end by a
  -- failed one if it was sent and not answered. The rows name the caller and the tool, a refusal of a
  -- blank name the constant that stands for one. Only a caller who is gone by the time the block list
  -- has been read may leave no row.
  pub dispatch-rows :
      (c : Caller) (tool args : Text) (s : State)
      → Adds (RowsOf c tool (dispatch w c tool args s).1) s (dispatch w c tool args s).0
  dispatch-rows c tool args s = View-Adds c tool args s _ (dispatch-View w c tool args s)
