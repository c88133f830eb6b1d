-- ===== src/Registry/Validate.antt =====
-- ValidName, UpstreamServer.Validate and what it calls in internal/registry/registry.go. A regular
-- expression is a test of the bytes that it takes. `url.Parse` and the decoding of a JSON array, of which
-- only the length is read, are parameters; an error is the rule that it names.
pub mod Names
use gatte.Base.{
  ℕ, suc, ◌+◌, Bool, true, false, not, ◌&&◌, ◌||◌, Text, text_eq, codes, contains, has_byte, cut,
  cut_prefix, is_blank, leb, ◌==◌, if◌then◌else◌, List, [], ◌∷◌, Option, none, some, Result, ok,
  err, ◌>>=◌, any, map, length,
}
use gatte.Access.{name_separator}
use gatte.Quota.{is_nil}
use gatte.Registry.{UpstreamServer}

-- The scheme and the host of a URL, and the length of a JSON array.
pub record Parsers : Type 0 where
  pub parse_url : Text → Option (Text × Text)
  pub array_length : Text → Option ℕ

pub data EntryError : Type 0 where
  name_empty name_separated name_unsafe name_reserved : EntryError
  command_empty command_set image_empty image_unpinned image_set url_set : EntryError
  url_empty url_invalid url_scheme url_no_host : EntryError
  auth_kind_unknown keyless_with_secret keyless_with_name secret_not_single : EntryError
  auth_name_empty auth_name_unsafe auth_name_control auth_name_set : EntryError
  operations_empty operations_invalid operations_none : EntryError
  transport_unknown auth_kind_set operations_set env_var_empty env_var_unsafe : EntryError

abbrev all_bytes : (ℕ → Bool) → Text → Bool
all_bytes p [] = true
all_bytes p (c ∷ s) = p c && all_bytes p s

abbrev in_range : ℕ → ℕ → ℕ → Bool
in_range low high c = leb low c && leb c high

-- `[A-Za-z0-9]`
abbrev pub is_alphanumeric : ℕ → Bool
is_alphanumeric c = in_range 65 90 c || in_range 97 122 c || in_range 48 57 c

abbrev pub is_name_byte : ℕ → Bool
is_name_byte c = is_alphanumeric c || c == 95 || c == 45

-- `^[A-Za-z0-9][A-Za-z0-9_-]*$`
unfoldable pub safe_upstream_name : Text → Bool
safe_upstream_name [] = false
safe_upstream_name (c ∷ s) = is_alphanumeric c && all_bytes is_name_byte s

-- `strings.ToLower` of ASCII.
unfoldable pub to_lower : Text → Text
to_lower s = map (λ c. if in_range 65 90 c then c + 32 else c) s

abbrev pub reserved_name : Text
reserved_name = codes "gatte"

-- `strings.EqualFold(name, ReservedName)` of a safe name, which is ASCII.
unfoldable pub is_reserved : Text → Bool
unfolding to_lower text_eq
is_reserved name = text_eq (to_lower name) reserved_name

unfoldable pub valid_name : Text → Bool
unfolding safe_upstream_name is_reserved
valid_name name = safe_upstream_name name && not (is_reserved name)

-- `^[^@\s]+@sha256:[0-9a-f]{64}$`
abbrev is_space_byte : ℕ → Bool
is_space_byte c = c == 32 || c == 9 || c == 10 || c == 12 || c == 13

abbrev is_hex_byte : ℕ → Bool
is_hex_byte c = in_range 48 57 c || in_range 97 102 c

unfoldable pub digest_pinned : Text → Bool
unfolding cut cut_prefix
digest_pinned image = elim (cut 64 image) [
  | none ↦ false
  | some (name, rest) ↦
      not (is_nil name)
      && all_bytes (λ c. not (is_space_byte c)) name
      && (elim (cut_prefix (codes "sha256:") rest) [
        | none ↦ false
        | some digest ↦ length digest == 64 && all_bytes is_hex_byte digest
      ])
]

abbrev pub Verdict : Type 0
Verdict = Result EntryError Unit

unfoldable pub validate_image : Text → Verdict
unfolding is_blank digest_pinned
validate_image image =
    if is_blank image
    then err image_empty
    else if not (digest_pinned image)
    then err image_unpinned
    else ok tt

-- `rejectImage` and `rejectUnusedByOCI`.
unfoldable pub reject_set : EntryError → Text → Verdict
unfolding is_blank
reject_set e value = if is_blank value then ok tt else err e

-- `^[A-Za-z0-9!#$%&'*+.^_`|~-]+$`
abbrev auth_name_byte : ℕ → Bool
auth_name_byte c = is_name_byte c || any (λ x. x == c) (codes "!#$%&'*+.^`|~")

unfoldable pub validate_auth_name : Text → Verdict
unfolding is_blank
validate_auth_name name =
    if is_blank name
    then err auth_name_empty
    else if not (all_bytes auth_name_byte name)
    then err auth_name_unsafe
    else ok tt

abbrev pub control_header_slots : List Text
control_header_slots =
    codes "host"
    ∷ codes "content-length"
    ∷ codes "transfer-encoding"
    ∷ codes "connection"
    ∷ codes "upgrade"
    ∷ codes "te"
    ∷ codes "trailer"
    ∷ codes "keep-alive"
    ∷ codes "cookie"
    ∷ []

unfoldable pub is_control_header_slot : Text → Bool
unfolding to_lower contains cut_prefix
is_control_header_slot name =
    let folded = map (λ c. if c == 95 then 45 else c) (to_lower name) in
    contains control_header_slots folded
    || (elim (cut_prefix (codes "proxy-") folded) [ none ↦ false | some s ↦ true ])

-- The text of `AuthNone` is empty.
abbrev pub auth_bearer : Text
auth_bearer = codes "bearer"

abbrev pub auth_header : Text
auth_header = codes "header"

abbrev pub auth_query : Text
auth_query = codes "query"

unfoldable pub auth_kind_valid : Text → Bool
unfolding text_eq
auth_kind_valid k =
    is_nil k || text_eq k auth_bearer || text_eq k auth_header || text_eq k auth_query

unfoldable pub names_location : Text → Bool
unfolding text_eq
names_location k = text_eq k auth_header || text_eq k auth_query

unfoldable pub validate_url : Parsers → Text → Verdict
unfolding is_blank text_eq
validate_url ps url = if is_blank url then err url_empty else elim (ps.parse_url url) [
  | none ↦ err url_invalid
  | some (scheme, host) ↦
      if not (text_eq scheme (codes "http")) && not (text_eq scheme (codes "https"))
      then err url_scheme
      else if is_nil host
      then err url_no_host
      else ok tt
]

unfoldable pub validate_credential : UpstreamServer → Verdict
unfolding auth_kind_valid names_location validate_auth_name is_control_header_slot is_blank text_eq
validate_credential s =
    if not (auth_kind_valid s.auth_kind)
    then err auth_kind_unknown
    else if is_nil s.auth_kind
    then (if not (is_nil s.env_var_names)
        then err keyless_with_secret
        else if not (is_blank s.auth_name)
        then err keyless_with_name
        else ok tt)
    else if not (length s.env_var_names == 1)
    then err secret_not_single
    else if names_location s.auth_kind
    then validate_auth_name s.auth_name >>= (λ u.
      if text_eq s.auth_kind auth_header && is_control_header_slot s.auth_name
      then err auth_name_control
      else ok tt)
    else if not (is_blank s.auth_name)
    then err auth_name_set
    else ok tt

unfoldable pub validate_operations : Parsers → Text → Verdict
validate_operations ps operations =
    if is_nil operations then err operations_empty else elim (ps.array_length operations) [
      | none ↦ err operations_invalid
      | some n ↦ if n == 0 then err operations_none else ok tt
    ]

unfoldable pub validate_http : Parsers → UpstreamServer → Verdict
unfolding reject_set validate_url validate_credential validate_operations
validate_http ps s = reject_set image_set s.image >>= (λ u.
    reject_set command_set s.command >>= (λ u.
      validate_url ps s.url
      >>= (λ u. validate_credential s >>= (λ u. validate_operations ps s.operations))))

unfoldable pub validate_upstream_name : Text → Verdict
unfolding is_blank has_byte safe_upstream_name is_reserved
validate_upstream_name name =
    if is_blank name
    then err name_empty
    else if has_byte name_separator name
    then err name_separated
    else if not (safe_upstream_name name)
    then err name_unsafe
    else if is_reserved name
    then err name_reserved
    else ok tt

abbrev pub transport_stdio : Text
transport_stdio = codes "stdio"

abbrev pub transport_http : Text
transport_http = codes "http"

abbrev pub transport_oci : Text
transport_oci = codes "oci"

unfoldable pub validate_transport : Parsers → UpstreamServer → Verdict
unfolding is_blank reject_set validate_image validate_http text_eq
validate_transport ps s =
    if text_eq s.transport transport_stdio
    then (if is_blank s.command then err command_empty else reject_set image_set s.image)
    else if text_eq s.transport transport_oci
    then validate_image s.image
      >>= (λ u. reject_set command_set s.command >>= (λ u. reject_set url_set s.url))
    else if text_eq s.transport transport_http
    then validate_http ps s
    else err transport_unknown

unfoldable pub validate_unused : UpstreamServer → Verdict
unfolding is_blank text_eq
validate_unused s =
    if text_eq s.transport transport_http
    then ok tt
    else if not (is_nil s.auth_kind)
    then err auth_kind_set
    else if not (is_blank s.auth_name)
    then err auth_name_set
    else if not (is_nil s.operations)
    then err operations_set
    else ok tt

-- The bytes of `"= \t\n\r"`.
abbrev not_in_env_var : ℕ → Bool
not_in_env_var c = c == 61 || c == 32 || c == 9 || c == 10 || c == 13

unfoldable pub validate_env_vars : List Text → Verdict
unfolding is_blank
validate_env_vars [] = ok tt
validate_env_vars (name ∷ names) =
    let rest = validate_env_vars names in
    if is_blank name
    then err env_var_empty
    else if any not_in_env_var name
    then err env_var_unsafe
    else rest

unfoldable pub validate_entry : Parsers → UpstreamServer → Verdict
unfolding validate_upstream_name validate_transport validate_unused validate_env_vars
validate_entry ps s = validate_upstream_name s.name >>= (λ u.
    validate_transport ps s
    >>= (λ u. validate_unused s >>= (λ u. validate_env_vars s.env_var_names)))
