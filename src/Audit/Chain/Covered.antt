-- ===== src/Audit/Chain/Covered.antt =====
-- The hash of the chain covers every field of a record, and the hash before it.
use mathlib.Core.List.{append_assoc}
use gatte.Base.{
  ◌≡◌, refl, sym, ap, ◌∙◌, Bool, true, false, [], ◌∷◌, ◌++◌, Text, length, if◌then◌else◌,
  put_uint64, framed, framed-injective, IsSized, arith, text_eq, text_eq→eq, text_eq_iff, ◌⊎◌, ◌≢◌,
  Bool-cases, inl, inr,
}
use gatte.Quota.{Time}
use gatte.Audit.{Record}
use gatte.Audit.Chain.{
  chain_tag, chain_tag_named, is_named, append_field, canonical, chain_hash, Shown, shown,
  IsSizedRecord,
}

append_field-framed : (buf v : Text) → append_field buf v ≡ buf ++ framed v
unfolding append_field
append_field-framed buf v = append_assoc buf (put_uint64 (length v)) v

abbrev tag_of : Bool → Text
tag_of named = if named then chain_tag_named else chain_tag

abbrev name_part : Text → Text
name_part name = if is_named name then framed name else []

-- The fields behind their lengths, one after the other.
abbrev frames : Shown → Text → Text
frames s prev =
    framed (tag_of (is_named s.analyst_name))
    ++ (framed s.analyst_identity
        ++ (framed s.tool
            ++ (framed s.target_upstream
                ++ (framed s.timestamp
                    ++ (framed s.outcome
                        ++ (framed s.reason
                            ++ (framed s.source_address
                                ++ (name_part s.analyst_name ++ framed prev))))))))

named_field :
    (b : Bool) (buf name prev : Text)
    → append_field (if b then append_field buf name else buf) prev
      ≡ buf ++ ((if b then framed name else []) ++ framed prev)
named_field true buf name prev = simp (append_field-framed, append_assoc)
named_field false buf name prev = append_field-framed buf prev

eight_fields :
    (a b c d e f g h rest : Text)
    → append_field
          (append_field
            (append_field
              (append_field
                (append_field (append_field (append_field (append_field [] a) b) c) d)
                e)
              f)
            g)
          h
        ++ rest
      ≡ framed a
        ++ (framed b
            ++ (framed c
                ++ (framed d ++ (framed e ++ (framed f ++ (framed g ++ (framed h ++ rest)))))))
eight_fields a b c d e f g h rest = simp (append_field-framed, append_assoc)

chain_input-frames :
    (format : Time → Text) (r : Record) (prev : Text)
    → append_field (canonical format r) prev ≡ frames (shown format r) prev
unfolding canonical
chain_input-frames format r prev =
    let buf =
      append_field
        (append_field
          (append_field
            (append_field
              (append_field
                (append_field
                  (append_field (append_field [] (tag_of (is_named r.analyst_name)))
                    r.analyst_identity)
                  r.tool)
                r.target_upstream)
              (format r.timestamp))
            r.outcome)
          r.reason)
        r.source_address in
    named_field (is_named r.analyst_name) buf r.analyst_name prev
    ∙ eight_fields (tag_of (is_named r.analyst_name)) r.analyst_identity r.tool r.target_upstream
        (format r.timestamp) r.outcome r.reason r.source_address
        (name_part r.analyst_name ++ framed prev)

tag_of-IsSized : (b : Bool) → IsSized (tag_of b)
tag_of-IsSized true = omega arith
tag_of-IsSized false = omega arith

-- The tags differ in their last byte.
tag_of-injective : (a b : Bool) → tag_of a ≡ tag_of b → a ≡ b
unfolding text_eq
tag_of-injective true true e = refl
tag_of-injective false false e = refl
tag_of-injective true false e = sym (ap (λ t. text_eq t chain_tag) e)
tag_of-injective false true e = ap (λ t. text_eq t chain_tag_named) e

name_part-injective :
    (n m p q : Text)
    → IsSized n
    → IsSized m
    → IsSized p
    → IsSized q
    → is_named n ≡ is_named m
    → name_part n ++ framed p ≡ name_part m ++ framed q
    → (n ≡ m) × (p ≡ q)
name_part-injective [] [] p q hn hm hp hq b e =
    (refl, (framed-injective p q {r = []} {s = []} hp hq (ap (λ w. w ++ []) e)).0)
name_part-injective [] (y ∷ m) p q hn hm hp hq b e = cc
name_part-injective (x ∷ n) [] p q hn hm hp hq b e = cc
name_part-injective (x ∷ n) (y ∷ m) p q hn hm hp hq b e =
    let names = framed-injective (x ∷ n) (y ∷ m) hn hm e in
    (names.0, (framed-injective p q {r = []} {s = []} hp hq (ap (λ w. w ++ []) names.1)).0)

frames-injective :
    (s t : Shown) (p q : Text)
    → IsSizedRecord s
    → IsSizedRecord t
    → IsSized p
    → IsSized q
    → frames s p ≡ frames t q
    → (s ≡ t) × (p ≡ q)
frames-injective s t p q hs ht hp hq e =
    let ns = is_named s.analyst_name in
    let nt = is_named t.analyst_name in
    let tags = framed-injective (tag_of ns) (tag_of nt) (tag_of-IsSized ns) (tag_of-IsSized nt) e in
    let f1 =
      framed-injective s.analyst_identity t.analyst_identity hs.identity_sized ht.identity_sized
        tags.1 in
    let f2 = framed-injective s.tool t.tool hs.tool_sized ht.tool_sized f1.1 in
    let f3 =
      framed-injective s.target_upstream t.target_upstream hs.upstream_sized ht.upstream_sized
        f2.1 in
    let f4 = framed-injective s.timestamp t.timestamp hs.timestamp_sized ht.timestamp_sized f3.1 in
    let f5 = framed-injective s.outcome t.outcome hs.outcome_sized ht.outcome_sized f4.1 in
    let f6 = framed-injective s.reason t.reason hs.reason_sized ht.reason_sized f5.1 in
    let f7 =
      framed-injective s.source_address t.source_address hs.address_sized ht.address_sized f6.1 in
    let f8 =
      name_part-injective s.analyst_name t.analyst_name p q hs.name_sized ht.name_sized hp hq
        (tag_of-injective ns nt tags.0) f7.1 in
    (
      (λ i. record {
        analyst_identity = f1.0 i;
        tool = f2.0 i;
        target_upstream = f3.0 i;
        timestamp = f4.0 i;
        outcome = f5.0 i;
        reason = f6.0 i;
        source_address = f7.0 i;
        analyst_name = f8.0 i;
      }),
      f8.1,
    )

-- Two texts with one digest.
abbrev pub Collision : (Text → Text) → Type 0
Collision sha256 = (a : Text) × (b : Text) × (a ≢ b) × (sha256 a ≡ sha256 b)

-- Of records whose fields are shorter than 2^64, one chain hash for two means that they agree in
-- every field and stand behind the same hash, unless a collision of the digest was found.
pub chain_hash-covers :
    (sha256 : Text → Text) (format : Time → Text) (r s : Record) (p q : Text)
    → IsSizedRecord (shown format r)
    → IsSizedRecord (shown format s)
    → IsSized p
    → IsSized q
    → chain_hash sha256 format p r ≡ chain_hash sha256 format q s
    → ((shown format r ≡ shown format s) × (p ≡ q)) ⊎ Collision sha256
unfolding chain_hash
chain_hash-covers sha256 format r s p q hr hs hp hq e =
    let a = append_field (canonical format r) p in
    let b = append_field (canonical format s) q in
    elim (Bool-cases (text_eq a b)) [
      | inl same ↦ inl (
          frames-injective (shown format r) (shown format s) p q hr hs hp hq (
            sym (chain_input-frames format r p)
            ∙ text_eq→eq a b same
            ∙ chain_input-frames format s q))
      | inr differ ↦ inr (a, b, (λ same. absurd (ground (arith, text_eq_iff a b, differ, same))), e)
    ]
