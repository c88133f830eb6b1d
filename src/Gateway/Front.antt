-- ===== src/Gateway/Front.antt =====
-- AdmitCaller and RecordAuthFailure of internal/gateway/endpoint.go, at the front door: the kill switch
-- for a verified caller, and the trail of a request that nobody authenticated for.
use gatte.Base.{◌≡◌, false, Text, text_eq_refl, codes, [], none, some, Result, ok, err, arith, ℕ}
use gatte.Gateway.Trail.{Caller, Ledger, Reason, Trail, record_row, denied, auth_failed, auth_flood}
use gatte.Gateway.Admit.{BlockError, BlockRead, read_block, check_block}
use gatte.Gateway.World.{World, State}
use gatte.Gateway.Dispatch.{refuse_blocked}
use gatte.Gateway.AuthLimit.{
  Floats, Sources, AuthLimiter, auth_admit, auth_mark, auth_drop, classify,
}

abbrev pub authentication_tool : Text
authentication_tool = codes "(authentication)"

abbrev pub gateway_itself : Text
gateway_itself = codes "(gateway)"

abbrev pub unauthenticated : Text → Caller
unauthenticated source = record {
  identity = record { subject = codes "(unauthenticated)"; name = []; groups = [] };
  source_address = source;
}

-- The state, and the subject that the request's context carries from here on.
unfoldable pub admit_caller : World → Caller → State → State × Result BlockError Text
unfolding read_block refuse_blocked
admit_caller w c s = elim (read_block w.block) [
  | some e ↦ (refuse_blocked w c authentication_tool gateway_itself e s, err e)
  | none ↦ (s, ok c.identity.subject)
]

unfoldable pub record_auth_failure :
    Ledger → Floats → (Sources → Sources) → Text → ℕ → AuthLimiter × Trail → AuthLimiter × Trail
unfolding classify record_row
record_auth_failure ledger fl iteration source now (l, t) =
    let (l', verdict) = classify fl iteration l source now in
    let row : Reason → Trail = λ reason.
      (record_row ledger (unauthenticated source) authentication_tool gateway_itself denied reason
        t).0 in
    elim verdict [
      | auth_drop ↦ (l', t)
      | auth_mark ↦ (l', row auth_flood)
      | auth_admit ↦ (l', row auth_failed)
    ]

-- A request that is let in has been looked up, in a table that could be read and did not hold its
-- caller, leaves no row, and passes the kill switch of ListTools and Dispatch whatever that table says
-- later: a block never stops half of a request.
pub admit_caller-check_block :
    (w : World) (c : Caller) (s : State) (subject : Text) (later : BlockRead)
    → (admit_caller w c s).1 ≡ ok subject
    → (w.block.blocked ≡ some false)
      × ((admit_caller w c s).0 ≡ s)
      × (check_block (some subject) c.identity.subject later ≡ none)
unfolding admit_caller read_block check_block
admit_caller-check_block w c s subject later h = ground (arith, text_eq_refl c.identity.subject)
