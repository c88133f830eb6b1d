-- ===== src/Registry/Validate/Names.antt =====
-- What an entry that is valid promises to the readers of its name.
use gatte.Base.{
  ◌≡◌, refl, true, false, Text, has_byte, [], ◌∷◌, some, Result, ok, err, arith, ◌>>=◌,
}
use gatte.Access.{name_separator}
use gatte.Quota.{is_nil}
use gatte.Gateway.{namespaced, split_namespaced}
use gatte.Gateway.Names.{split_namespaced-namespaced}
use gatte.Registry.{UpstreamServer}
use gatte.Registry.Validate.{
  Parsers, EntryError, validate_entry, validate_upstream_name, safe_upstream_name, valid_name,
}

module _ {A B : Type 0} where
  bind_ok :
      (r : Result EntryError A) (f : A → Result EntryError B) {b : B}
      → (r >>= f) ≡ ok b
      → (a : A) × (r ≡ ok a)
  bind_ok (ok a) f h = (a, refl)
  bind_ok (err e) f h = absurd cc

record IsUpstreamName (name : Text) : Type 0 where
  pub unseparated : has_byte name_separator name ≡ false
  pub accepted : valid_name name ≡ true

validate_upstream_name-IsUpstreamName :
    (name : Text) → validate_upstream_name name ≡ ok tt → IsUpstreamName name
unfolding validate_upstream_name valid_name
validate_upstream_name-IsUpstreamName name h = record {
  unseparated = ground (arith, h);
  accepted = ground (arith, h);
}

safe_name-filled : (name : Text) → safe_upstream_name name ≡ true → is_nil name ≡ false
unfolding safe_upstream_name
safe_name-filled [] h = absurd cc
safe_name-filled (c ∷ s) h = refl

-- A valid entry has a valid name, and the name of each of its tools that is not empty is split back into
-- the entry's name and the tool's own name.
pub validate_entry-split :
    (ps : Parsers) (s : UpstreamServer) (tool : Text)
    → validate_entry ps s ≡ ok tt
    → is_nil tool ≡ false
    → (valid_name s.name ≡ true) × (split_namespaced (namespaced s.name tool) ≡ some (s.name, tool))
unfolding validate_entry valid_name
validate_entry-split ps s tool h t =
    let named = bind_ok (validate_upstream_name s.name) _ h in
    let name = validate_upstream_name-IsUpstreamName s.name named.1 in
    let filled = safe_name-filled s.name (ground (arith, name.accepted)) in
    (name.accepted, split_namespaced-namespaced s.name tool name.unseparated filled t)
