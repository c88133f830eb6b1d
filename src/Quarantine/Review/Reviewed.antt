-- ===== src/Quarantine/Review/Reviewed.antt =====
-- A set that is approved is the set that the operator was shown.
use gatte.Base.{
  ℕ, ◌<◌, ◌≤◌, ◌^◌, ◌≡◌, inl, inr, refl, sym, ap, ◌∙◌, List, [], ◌∷◌, map, Text, Bool, true, length,
  arith, select, sort, text_le_total, text_eq, text_eq_iff, text_eq_refl, text_eq→eq, All-tested,
  All-both, All-map, ok, All, All-select, All-sort, length-select-le, length-sort, sort-IsSorted,
  sort_of_sorted, Result-cases,
}
use gatte.Quarantine.{Tool, needs_review, approved_fingerprint, approve}
use gatte.Quarantine.Identity.{write_field-injective}
use gatte.Base.{put_uint64, put_uint64-injective, IsSized}
use gatte.Quarantine.Review.{
  by_name, review_set, status_text, manifest_entries, manifest_input, manifest, Approval, mine,
  approve_all, approved_set, manifest_domain_tag,
}

-- What the manifest covers of one entry.
pub record Shown : Type 0 where
  pub name : Text
  pub status : Text
  pub observed : Text
  pub approved : Text

abbrev pub shown : Tool → Shown
shown t = record {
  name = t.tool_name;
  status = status_text t.status;
  observed = t.observed_hash;
  approved = t.approved_hash;
}

pub record IsSizedEntry (t : Tool) : Type 0 where
  pub name_sized : IsSized t.tool_name
  pub status_sized : IsSized (status_text t.status)
  pub observed_sized : IsSized t.observed_hash
  pub approved_sized : IsSized t.approved_hash

manifest_entries-injective :
    (xs ys : List Tool)
    → All IsSizedEntry xs
    → All IsSizedEntry ys
    → length xs ≡ length ys
    → manifest_entries xs ≡ manifest_entries ys
    → map shown xs ≡ map shown ys
unfolding manifest_entries
manifest_entries-injective [] [] hx hy n e = refl
manifest_entries-injective [] (y ∷ ys) hx hy n e = absurd (omega arith)
manifest_entries-injective (x ∷ xs) [] hx hy n e = absurd (omega arith)
manifest_entries-injective (x ∷ xs) (y ∷ ys) hx hy n e =
    let a = hx.0 in
    let b = hy.0 in
    let names = write_field-injective x.tool_name y.tool_name a.name_sized b.name_sized e in
    let statuses =
      write_field-injective (status_text x.status) (status_text y.status) a.status_sized
        b.status_sized names.1 in
    let seen =
      write_field-injective x.observed_hash y.observed_hash a.observed_sized b.observed_sized
        statuses.1 in
    let kept =
      write_field-injective x.approved_hash y.approved_hash a.approved_sized b.approved_sized
        seen.1 in
    let rest = manifest_entries-injective xs ys hx.1 hy.1 (omega arith) kept.1 in
    λ i.
      record { name = names.0 i; status = statuses.0 i; observed = seen.0 i; approved = kept.0 i }
      ∷ rest i

put_uint64-IsSized : (n : ℕ) → IsSized (put_uint64 n)
unfolding put_uint64
put_uint64-IsSized n = omega arith

-- Equal bytes to digest show the same entries.
manifest_input-shown :
    (server : Text) (xs ys : List Tool)
    → IsSized server
    → length xs < 2 ^ 64
    → length ys < 2 ^ 64
    → All IsSizedEntry xs
    → All IsSizedEntry ys
    → manifest_input server xs ≡ manifest_input server ys
    → map shown (sort by_name xs) ≡ map shown (sort by_name ys)
unfolding manifest_input
manifest_input-shown server xs ys hs nx ny hx hy e =
    let sx = sort by_name xs in
    let sy = sort by_name ys in
    let tags =
      write_field-injective manifest_domain_tag manifest_domain_tag (omega arith) (omega arith) e in
    let servers = write_field-injective server server hs hs tags.1 in
    let counts =
      write_field-injective (put_uint64 (length sx)) (put_uint64 (length sy))
        (put_uint64-IsSized (length sx)) (put_uint64-IsSized (length sy)) servers.1 in
    let lx = length-sort by_name xs in
    let ly = length-sort by_name ys in
    manifest_entries-injective sx sy (All-sort IsSizedEntry by_name xs hx)
      (All-sort IsSizedEntry by_name ys hy)
      (put_uint64-injective (length sx) (length sy) (omega arith) (omega arith) counts.0) counts.1

abbrev pub approval_of : ℕ → Tool → Approval
approval_of now t = record { before = t; after = approve t now }

approve_all_lem : (ts : List Tool) (now : ℕ) → approve_all ts now ≡ ok (map (approval_of now) ts)
unfolding approve_all approved_fingerprint
approve_all_lem [] now = refl
approve_all_lem (t ∷ ts) now = rw (text_eq_refl t.observed_hash, approve_all_lem ts now)

abbrev of_server : Text → Tool → Bool
of_server server t = text_eq t.server_name server

mine-select :
    (server : Text) (tools : List Tool) {own : List Tool}
    → mine server tools ≡ ok own
    → own ≡ select (of_server server) tools
unfolding mine
mine-select server [] e = ground arith
mine-select server (t ∷ ts) {own} e = elim (Result-cases (mine server ts)) [
  | inl (x, bad) ↦ ground (arith, bad)
  | inr (rest, good) ↦ ground (arith, good, mine-select server ts good)
]

-- An approved set, taken apart.
approved_set_ok :
    (sha256 : Text → Text) (server : Text) (tools : List Tool) (digest : Text) (now : ℕ)
    {approvals : List Approval}
    → approved_set sha256 server tools digest now ≡ ok approvals
    → (own : List Tool) × (mine server tools ≡ ok own)
      × (manifest sha256 server (review_set own) ≡ digest)
      × (approvals ≡ map (approval_of now) (review_set own))
unfolding approved_set
approved_set_ok sha256 server tools digest now {approvals} e =
    elim (Result-cases (mine server tools)) [
      | inl (x, bad) ↦ ground (arith, bad)
      | inr (own, good) ↦ (
        own,
        good,
        ground (arith, good, text_eq_iff (manifest sha256 server (review_set own)) digest),
        ground (arith, good, approve_all_lem (review_set own) now),
      )
    ]

waiting_sized :
    (server : Text) (tools : List Tool)
    → All IsSizedEntry tools
    → All IsSizedEntry (review_set (select (of_server server) tools))
unfolding review_set
waiting_sized server tools h =
    All-sort IsSizedEntry by_name _
      (All-select IsSizedEntry needs_review _ (All-select IsSizedEntry (of_server server) tools h))

length-waiting :
    (server : Text) (tools : List Tool)
    → length (review_set (select (of_server server) tools)) ≤ length tools
unfolding review_set
length-waiting server tools =
    let own = select (of_server server) tools in
    omega (
      arith,
      length-sort by_name (select needs_review own),
      length-select-le needs_review own,
      length-select-le (of_server server) tools,
    )

review_set_sorted : (own : List Tool) → sort by_name (review_set own) ≡ review_set own
unfolding review_set
review_set_sorted own =
    sort_of_sorted by_name _ (
      sort-IsSorted by_name (λ a b. text_le_total a.tool_name b.tool_name)
        (select needs_review own))

abbrev Waits : Text → Tool → Type 0
Waits server t = (of_server server t ≡ true) × (needs_review t ≡ true)

waiting_own :
    (server : Text) (tools : List Tool)
    → All (Waits server) (review_set (select (of_server server) tools))
unfolding review_set
waiting_own server tools =
    let own = select (of_server server) tools in
    All-sort (Waits server) by_name _ (
      All-both (λ t. of_server server t ≡ true) (λ t. needs_review t ≡ true)
        (select needs_review own)
        (All-select (λ t. of_server server t ≡ true) needs_review own
          (All-tested (of_server server) tools))
        (All-tested needs_review own))

map-map {ℓ κ μ} :
    {A : Type ℓ} {B : Type κ} {C : Type μ} (f : A → B) (g : B → C) (xs : List A)
    → map (λ x. g (f x)) xs ≡ map g (map f xs)
map-map f g [] = refl
map-map f g (x ∷ xs) = ap (λ ys. g (f x) ∷ ys) (map-map f g xs)

-- If `approved_set` accepts the manifest of a set that the operator reviewed, then what it approves
-- shows, in order of names, exactly what the reviewed set showed (each tool's name, status,
-- advertised fingerprint and baseline), all of it belongs to the server and was waiting for review,
-- and each entry becomes what `approve` makes of it. The digest is assumed free of collisions, and
-- all texts and lists to be shorter than 2^64.
pub approved_set-reviewed :
    (sha256 : Text → Text) (server : Text) (tools reviewed : List Tool) (now : ℕ)
    {approvals : List Approval}
    → ((a b : Text) → sha256 a ≡ sha256 b → a ≡ b)
    → IsSized server
    → length tools < 2 ^ 64
    → length reviewed < 2 ^ 64
    → All IsSizedEntry tools
    → All IsSizedEntry reviewed
    → approved_set sha256 server tools (manifest sha256 server reviewed) now ≡ ok approvals
    → (map shown (sort by_name reviewed) ≡ map (λ a. shown a.before) approvals)
      × All
          (λ a.
            (a.before.server_name ≡ server)
            × (needs_review a.before ≡ true)
            × (a.after ≡ approve a.before now))
          approvals
unfolding manifest
approved_set-reviewed sha256 server tools reviewed now {approvals} free hs nt nr ht hr e =
    let (own, mined, digest, given) = approved_set_ok sha256 server tools _ now e in
    let mined_own = mine-select server tools mined in
    let set = review_set (select (of_server server) tools) in
    let digest' : manifest sha256 server set ≡ manifest sha256 server reviewed =
      rw (← mined_own) digest in
    let given' : approvals ≡ map (approval_of now) set = rw (← mined_own) given in
    let long = length-waiting server tools in
    let same =
      manifest_input-shown server set reviewed hs (omega arith) nr (waiting_sized server tools ht)
        hr (free _ _ digest') in
    rw given' (
      (sym same
          ∙ ap (map shown) (review_set_sorted (select (of_server server) tools))
          ∙ map-map (approval_of now) (λ a. shown a.before) set),
      All-map (Waits server) _ (approval_of now) set
          (λ t w. (text_eq→eq t.server_name server w.0, w.1, refl)) (waiting_own server tools),
    )
