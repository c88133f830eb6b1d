-- ===== src/Tests/Gateway.antt =====
-- Calls through the gateway at concrete inputs.
use gatte.Base.{
  ◌+◌, ◌≡◌, ◌≢◌, ◌≤◌, ◌↔◌, refl, true, false, Text, codes, List, [], ◌∷◌, none, some, Result, ok,
  err, pos, pos_part, arith,
}
use gatte.Quarantine.{Tool, new_tool, approve, safe, sensitive}
use gatte.Access.Policy.{authorize, authorize_non_read}
use gatte.Gateway.Trail.{Caller, Failure}
use gatte.Gateway.Slots.{in_use, acquire, release}
use gatte.Gateway.Slots.InFlight.{IsSlots, count, Reaches, idle, begins, ends, Reaches-counts}
use gatte.Gateway.Admit.{
  RoutedTool, Routes, Quarantine, Listed, lookup, admit, admit_row, list_tools,
}
use gatte.Gateway.Admit.Gates.{Open, admit-Open, admit_row-clearance}
use gatte.Gateway.Admit.Listing.{shows, is_open, list_tools-is_open}
use gatte.Gateway.World.{World, State, Payload, answered, no_such_tool}
use gatte.Gateway.Dispatch.{dispatch}
use gatte.Gateway.Front.{admit_caller, admit_caller-check_block}
use gatte.Gateway.Admit.{check_block}
use gatte.Gateway.Dispatch.Effect.{Effect, dispatch-Effect}
use gatte.Gateway.Dispatch.Release.{dispatch-slots}
use gatte.Gateway.Dispatch.Rows.{Adds, RowsOf, dispatch-rows}
use gatte.Gateway.Dispatch.Safety.{sent-Open, sent-shows, dispatch-hides}
use gatte.Tests.Access.{policy, analyst}
use gatte.Tests.Quota.{plan, no_faults}

abbrev pub name : Text
name = codes "ti.lookup"

abbrev pub routed : RoutedTool
routed = record {
  route = record { upstream = codes "ti"; original_name = codes "lookup" };
  class = safe;
  description = codes "Looks up an address.";
  input_schema = codes "{}";
}

abbrev fresh : Tool
fresh = new_tool (codes "ti") (codes "lookup") (codes "h1") safe 1

-- A store that holds one approved tool, and one that holds it before its approval.
abbrev approved_store : Quarantine
approved_store upstream tool = ok (approve fresh 2)

abbrev pending_store : Quarantine
pending_store upstream tool = ok fresh

abbrev pub routes : Routes
routes = (name, routed) ∷ []

abbrev payload : Payload
payload = record { content = codes "[]"; structured = []; is_error = false }

abbrev gone_backend : Failure
gone_backend = record {
  is_deadline = false;
  is_cancelled = false;
  is_too_large = false;
  is_schema_violation = false;
  is_gone = true;
  is_internal = false;
}

abbrev world : Quarantine → Result Failure Payload → World
world store reply = record {
  admitted_subject = none;
  block = record { ended_before = false; blocked = some false; ended_after = false };
  suspended = false;
  routes = routes;
  conns = (codes "ti", 1) ∷ [];
  unlisted = [];
  policy = policy;
  plan = plan;
  quarantine = store;
  in_maintenance = some [];
  public_state = λ upstream. none;
  servable = λ upstream. true;
  observed_dead = none;
  ledger = record { fails = λ n. false; clock = λ n. record { instant = 210 + n; offset = pos 0 } };
  max_calls = pos 4;
  quota_now = record { instant = 210; offset = pos 0 };
  faults = no_faults;
  backend = λ conn tool args. reply;
  caller_ended = false;
  max_result_bytes = pos 100;
  conforms = λ rt res. true;
  scrub = λ upstream res. some res;
}

abbrev caller : Caller
caller = record { identity = analyst; source_address = codes "192.0.2.1" }

abbrev start : State
start = record {
  trail = record { rows = []; writes = 0; allowed_count = 0; denied_count = 0; failed_count = 0 };
  slots = (codes "a2", 1) ∷ [];
  counters = [];
  gone = [];
  sent = [];
}

abbrev serving : World
serving = world approved_store (ok payload)

abbrev args : Text
args = codes "{}"

call_is_answered : (dispatch serving caller name args start).1 ≡ answered payload false
unfolding dispatch approve new_tool
call_is_answered = refl

pending_is_unknown :
    (dispatch (world pending_store (ok payload)) caller name args start).1 ≡ no_such_tool
unfolding dispatch approve new_tool
pending_is_unknown = refl

call_is_sent :
    (dispatch serving caller name args start).0.sent ≡ (codes "ti", codes "lookup", args) ∷ []
unfolding dispatch approve new_tool
call_is_sent = refl

is_sent : (dispatch serving caller name args start).0.sent ≢ start.sent
is_sent e = let s = call_is_sent in cc

dispatch-Effect_example :
    Effect serving caller name args start (dispatch serving caller name args start)
dispatch-Effect_example = dispatch-Effect serving caller name args start

abbrev failing : World
failing = world approved_store (err gone_backend)

dispatch-rows_example :
    Adds
      (RowsOf caller name (dispatch failing caller name args start).1)
      start
      (dispatch failing caller name args start).0
dispatch-rows_example = dispatch-rows failing (λ n. refl) caller name args start

start-IsSlots : IsSlots start.slots
unfolding IsSlots in_use
start-IsSlots = (omega arith, refl, tt)

dispatch-slots_example :
    IsSlots (dispatch serving caller name args start).0.slots
    × ((t : Text)
        → in_use (dispatch serving caller name args start).0.slots t ≡ in_use start.slots t)
dispatch-slots_example = dispatch-slots serving caller name args start start-IsSlots

sent-Open_example :
    (rt : RoutedTool) × (lookup serving.routes name ≡ some rt)
    × (authorize serving.policy analyst name ≡ true)
    × Open serving.quarantine serving.policy analyst name rt
sent-Open_example = sent-Open serving caller name args start is_sent

abbrev shown : List Listed
shown =
    record { name = name; description = codes "Looks up an address."; input_schema = codes "{}" }
    ∷ []

listing_is_answered :
    list_tools serving.admitted_subject serving.block serving.suspended serving.quarantine
      serving.policy serving.routes analyst
    ≡ ok shown
unfolding list_tools approve new_tool
listing_is_answered = refl

sent-shows_example : shows shown name ≡ true
sent-shows_example = sent-shows serving caller name args start shown is_sent listing_is_answered

list_tools-is_open_example : shows shown name ≡ is_open approved_store policy analyst routes name
list_tools-is_open_example =
    list_tools-is_open approved_store policy analyst routes none serving.block false shown name
      listing_is_answered

dispatch-hides_example :
    (dispatch (world pending_store (ok payload)) caller name args start).1
    ≡ (dispatch
        (record (world pending_store (ok payload)) { routes = [] })
        caller
        name
        args
        start).1
unfolding dispatch approve new_tool
dispatch-hides_example =
    dispatch-hides (world pending_store (ok payload)) caller name args start routed refl refl refl

admit-Open_example :
    (admit approved_store policy analyst name routed ≡ none)
    ↔ Open approved_store policy analyst name routed
admit-Open_example = admit-Open approved_store policy analyst name routed

abbrev pub acting : RoutedTool
acting = record routed { class = sensitive }

admit_row-clearance_example :
    admit_row policy analyst name acting
      (record (approve fresh 2) { sensitive_cleared_hash = codes "h1" })
    ≡ admit_row policy analyst name acting (approve fresh 2)
unfolding authorize_non_read
admit_row-clearance_example =
    admit_row-clearance policy analyst name acting (approve fresh 2) (codes "h1") refl

-- Two calls of one subject begin and the first of them ends.
two_then_one : Reaches (pos 4) (release ((codes "a1", 2) ∷ []) (codes "a1")) (codes "a1" ∷ [])
unfolding acquire
two_then_one = ends (codes "a1") ((codes "a1", 2) ∷ []) [] (codes "a1" ∷ []) (
    begins (codes "a1") ((codes "a1", 1) ∷ []) _ (codes "a1" ∷ [])
      (begins (codes "a1") [] _ [] idle refl) refl)

Reaches-counts_example :
    let m = release ((codes "a1", 2) ∷ []) (codes "a1") in
    let live = codes "a1" ∷ [] in
    IsSlots m
    × ((s : Text) → in_use m s ≡ count live s)
    × ((s : Text) → count live s ≤ pos_part (pos 4))
Reaches-counts_example =
    Reaches-counts (pos 4) (release ((codes "a1", 2) ∷ []) (codes "a1")) (codes "a1" ∷ [])
      two_then_one

admit_caller-check_block_example :
    (serving.block.blocked ≡ some false)
    × ((admit_caller serving caller start).0 ≡ start)
    × (check_block (some (codes "a1")) (codes "a1") (record serving.block { blocked = some true })
        ≡ none)
unfolding admit_caller
admit_caller-check_block_example =
    admit_caller-check_block serving caller start (codes "a1")
      (record serving.block { blocked = some true }) refl
