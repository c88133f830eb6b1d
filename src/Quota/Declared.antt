-- ===== src/Quota/Declared.antt =====
-- Which tools a plan declares: IsDeclared over the index that NewPlan builds.
use gatte.Base.{
  ◌≡◌, refl, ap, ◌∙◌, ◌||◌, false, any, any-sort, Text, text_eq, text_eq_iff, contains, List, [],
  ◌∷◌, ok, arith,
}
use gatte.Quota.{Provider}
use gatte.Quota.Plan.{
  Plan, index_add, index_tools, index_providers, by_name, new_plan, is_charged, is_declared,
}
use gatte.Quota.Index.{new_plan_made}

-- Whether a tool is in the index.
is_charged-index_add :
    (tool t : Text) (q : Provider) (m : List (Text × List Provider))
    → is_charged (index_add tool q m) t ≡ (text_eq tool t || is_charged m t)
unfolding is_charged index_add
is_charged-index_add tool t q [] = refl
is_charged-index_add tool t q ((s, qs) ∷ m) = ground (
  arith,
  text_eq_iff s tool,
  text_eq_iff s t,
  text_eq_iff tool t,
  is_charged-index_add tool t q m,
)

is_charged-index_tools :
    (q : Provider) (tools : List Text) (t : Text) (m : List (Text × List Provider))
    → is_charged (index_tools q tools m) t ≡ (contains tools t || is_charged m t)
unfolding index_tools contains
is_charged-index_tools q [] t m = refl
is_charged-index_tools q (x ∷ xs) t m =
    ground (arith, is_charged-index_tools q xs t (index_add x q m), is_charged-index_add x t q m)

is_charged-index_providers :
    (qs : List Provider) (t : Text) (m : List (Text × List Provider))
    → is_charged (index_providers qs m) t ≡ (any (λ p. contains p.tools t) qs || is_charged m t)
unfolding index_providers
is_charged-index_providers [] t m = refl
is_charged-index_providers (q ∷ qs) t m = ground (
  arith,
  is_charged-index_providers qs t (index_tools q q.tools m),
  is_charged-index_tools q q.tools t m,
)

-- A plan that `new_plan` returns declares the tools that some declared account lists and the free ones.
pub is_declared-new_plan :
    (providers : List Provider) (free_tools : List Text) (tool : Text) {p : Plan}
    → new_plan providers free_tools ≡ ok p
    → is_declared p tool ≡ (any (λ q. contains q.tools tool) providers || contains p.free tool)
unfolding is_declared is_charged
is_declared-new_plan providers free_tools tool {p} e =
    let (made, sorted) = new_plan_made providers free_tools e in
    let listed : is_charged p.by_tool tool
        ≡ (any (λ q. contains q.tools tool) p.providers || false) =
      ap (λ m. is_charged m tool) made.indexed ∙ is_charged-index_providers p.providers tool [] in
    let same : any (λ q. contains q.tools tool) p.providers
        ≡ any (λ q. contains q.tools tool) providers =
      ap (any (λ q. contains q.tools tool)) sorted
      ∙ any-sort (λ q. contains q.tools tool) by_name providers in
    ground (arith, listed, same)
