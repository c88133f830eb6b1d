-- ===== src/Gateway/Admit.antt =====
-- The gates that ListTools and Dispatch share: readBlock, checkBlock, admit of
-- internal/gateway/endpoint.go, and ListTools itself.
pub mod Gates
pub mod Listing
use gatte.Base.{
  Bool, true, false, ◌&&◌, ◌||◌, not, Text, text_eq, text_le, if◌then◌else◌, List, [], ◌∷◌, Option,
  none, some, Result, ok, err, ◌>>=◌, map, sort,
}
use gatte.Quarantine.{
  Class, Tool, QuarantineError, not_found, usable, approved_as_advertised, is_safe,
}
use gatte.Access.Policy.{Identity, Policy, authorize, authorize_non_read}

pub data BlockError : Type 0 where
  context_ended blocked_subject unreadable_blocklist : BlockError

-- One look at the block list: whether the context had ended before it, the table's answer (`none` for
-- an error), and whether the context has ended after it.
pub record BlockRead : Type 0 where
  pub ended_before : Bool
  pub blocked : Option Bool
  pub ended_after : Bool

unfoldable pub read_block : BlockRead → Option BlockError
read_block r = if r.ended_before then some context_ended else elim r.blocked [
  | none ↦ if r.ended_after then some context_ended else some unreadable_blocklist
  | some true ↦ some blocked_subject
  | some false ↦ none
]

-- `admitted` is the subject that the request's context carries, if AdmitCaller let it in.
unfoldable pub check_block : Option Text → Text → BlockRead → Option BlockError
unfolding text_eq read_block
check_block none subject r = read_block r
check_block (some s) subject r = if text_eq s subject then none else read_block r

pub record Route : Type 0 where
  pub upstream : Text
  pub original_name : Text

-- A routed tool: its route, its class, and what is advertised of it.
pub record RoutedTool : Type 0 where
  pub route : Route
  pub class : Class
  pub description : Text
  pub input_schema : Text

pub data AdmitError : Type 0 where
  tool_quarantined quarantine_unavailable sensitive_not_granted : AdmitError

abbrev pub Quarantine : Type 0
Quarantine = Text → Text → Result QuarantineError Tool

-- What follows once the row is read.
unfoldable pub admit_row : Policy → Identity → Text → RoutedTool → Tool → Option AdmitError
unfolding usable approved_as_advertised authorize_non_read
admit_row policy id name rt t =
    let sensitive = not (is_safe t.class) || not (is_safe rt.class) in
    if not (usable t) && not (sensitive && approved_as_advertised t)
    then some tool_quarantined
    else if sensitive && not (authorize_non_read policy id name)
    then some sensitive_not_granted
    else if not (usable t)
    then some tool_quarantined
    else none

-- The answer of the quarantine's `Get`, which reads the row anew on every call.
unfoldable pub admit : Quarantine → Policy → Identity → Text → RoutedTool → Option AdmitError
unfolding admit_row
admit quarantine policy id name rt = elim (quarantine rt.route.upstream rt.route.original_name) [
  | err not_found ↦ some tool_quarantined
  | err e ↦ some quarantine_unavailable
  | ok t ↦ admit_row policy id name rt t
]

abbrev pub Routes : Type 0
Routes = List (Text × RoutedTool)

unfoldable pub lookup : Routes → Text → Option RoutedTool
unfolding text_eq
lookup [] name = none
lookup ((n, rt) ∷ routes) name = if text_eq n name then some rt else lookup routes name

pub record Listed : Type 0 where
  pub name : Text
  pub description : Text
  pub input_schema : Text

pub data ListError : Type 0 where
  list_refused : BlockError → ListError
  list_suspended : ListError
  list_unavailable : ListError

-- The loop over the sorted names. A name of the table is one that `lookup` finds.
unfoldable pub list_names :
    Quarantine → Policy → Identity → Routes → List Text → Result ListError (List Listed)
unfolding lookup authorize admit
list_names quarantine policy id routes [] = ok []
list_names quarantine policy id routes (name ∷ names) =
    let rest = list_names quarantine policy id routes names in
    elim (lookup routes name) [
      | none ↦ rest
      | some rt ↦
          if not (authorize policy id name)
          then rest
          else elim (admit quarantine policy id name rt) [
            | none ↦ rest >>= λ out. ok (
                record { name = name; description = rt.description; input_schema = rt.input_schema }
                ∷ out)
            | some tool_quarantined ↦ rest
            | some sensitive_not_granted ↦ rest
            | some quarantine_unavailable ↦ err list_unavailable
          ]
    ]

unfoldable pub list_tools :
    Option Text
    → BlockRead
    → Bool
    → Quarantine
    → Policy
    → Routes
    → Identity
    → Result ListError (List Listed)
unfolding check_block list_names text_le
list_tools admitted block suspended quarantine policy routes id =
    elim (check_block admitted id.subject block) [
      | some e ↦ err (list_refused e)
      | none ↦
          if suspended
          then err list_suspended
          else list_names quarantine policy id routes (sort text_le (map (λ r. r.0) routes))
    ]
