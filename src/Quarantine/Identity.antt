-- ===== src/Quarantine/Identity.antt =====
-- Hash and writeField of internal/quarantine/quarantine.go: the bytes that a tool's fingerprint is
-- the SHA-256 of. The digest is a parameter, from the bytes to its hexadecimal text.
use gatte.Base.{
  ◌≡◌, refl, ap, ℕ, [], ◌∷◌, ◌++◌, Text, codes, Bool, true, false, if◌then◌else◌, length, arith,
  put_uint64, IsSized, framed-injective,
}

pub record ToolIdentity : Type 0 where
  pub name : Text
  pub description : Text
  pub input_schema : Text
  pub output_schema : Text

abbrev pub hash_domain_tag : Text
hash_domain_tag = codes "mcp-gateway/quarantine/tool-identity/v1"

abbrev pub hash_domain_tag_output : Text
hash_domain_tag_output = codes "mcp-gateway/quarantine/tool-identity/v2-output"

-- What `writeField` writes for one field.
unfoldable pub write_field : Text → Text
unfolding put_uint64
write_field b = put_uint64 (length b) ++ b

abbrev pub is_empty : Text → Bool
is_empty [] = true
is_empty (x ∷ xs) = false

unfoldable pub hash_input : ToolIdentity → Text
unfolding write_field
hash_input t =
    write_field (if is_empty t.output_schema then hash_domain_tag else hash_domain_tag_output)
    ++ (write_field t.name
        ++ (write_field t.description
            ++ (write_field t.input_schema
                ++ (if is_empty t.output_schema then [] else write_field t.output_schema))))

unfoldable pub hash : (Text → Text) → ToolIdentity → Text
unfolding hash_input
hash sha256 t = sha256 (hash_input t)

-- What follows a field is read back only one way.
pub write_field-injective :
    (a b : Text) {r s : Text}
    → IsSized a
    → IsSized b
    → write_field a ++ r ≡ write_field b ++ s
    → (a ≡ b) × (r ≡ s)
unfolding write_field
write_field-injective a b ha hb e = framed-injective a b ha hb e

pub record IsSizedIdentity (t : ToolIdentity) : Type 0 where
  pub name_sized : IsSized t.name
  pub description_sized : IsSized t.description
  pub input_sized : IsSized t.input_schema
  pub output_sized : IsSized t.output_schema

abbrev tag_of : Bool → Text
tag_of no_output = if no_output then hash_domain_tag else hash_domain_tag_output

tag_of-IsSized : (b : Bool) → IsSized (tag_of b)
tag_of-IsSized true = omega arith
tag_of-IsSized false = omega arith

tag_of-injective : (a b : Bool) → tag_of a ≡ tag_of b → a ≡ b
tag_of-injective true true e = refl
tag_of-injective false false e = refl
tag_of-injective true false e = absurd (omega (arith, ap (length {A = ℕ}) e))
tag_of-injective false true e = absurd (omega (arith, ap (length {A = ℕ}) e))

abbrev output_part : Text → Text
output_part o = if is_empty o then [] else write_field o

output_part-injective :
    (o p : Text)
    → IsSized o
    → IsSized p
    → is_empty o ≡ is_empty p
    → output_part o ≡ output_part p
    → o ≡ p
output_part-injective [] [] ho hp b e = refl
output_part-injective [] (y ∷ ys) ho hp b e = cc
output_part-injective (x ∷ xs) [] ho hp b e = cc
output_part-injective (x ∷ xs) (y ∷ ys) ho hp b e =
    (write_field-injective (x ∷ xs) (y ∷ ys) {r = []} {s = []} ho hp (ap (λ w. w ++ []) e)).0

-- Two definitions whose fields have lengths below 2^64 are fed to the digest as the same bytes only
-- if they agree in name, description, input schema and output schema: no renaming or moving of
-- bytes between fields, and no dropped output schema, keeps a fingerprint.
pub hash_input-injective :
    (t u : ToolIdentity)
    → IsSizedIdentity t
    → IsSizedIdentity u
    → hash_input t ≡ hash_input u
    → t ≡ u
unfolding hash_input
hash_input-injective t u ht hu e =
    let no_t = is_empty t.output_schema in
    let no_u = is_empty u.output_schema in
    let tags =
      write_field-injective (tag_of no_t) (tag_of no_u) (tag_of-IsSized no_t) (tag_of-IsSized no_u)
        e in
    let names = write_field-injective t.name u.name ht.name_sized hu.name_sized tags.1 in
    let descriptions =
      write_field-injective t.description u.description ht.description_sized hu.description_sized
        names.1 in
    let inputs =
      write_field-injective t.input_schema u.input_schema ht.input_sized hu.input_sized
        descriptions.1 in
    let outputs =
      output_part-injective t.output_schema u.output_schema ht.output_sized hu.output_sized
        (tag_of-injective no_t no_u tags.0) inputs.1 in
    λ i. record {
      name = names.0 i;
      description = descriptions.0 i;
      input_schema = inputs.0 i;
      output_schema = outputs i;
    }
