-- ===== src/Gateway/Routes/Withheld.antt =====
-- Which tools of budgeted upstreams lose their routes under a plan that was built.
use gatte.Base.{
  ◌≡◌, refl, ap, ◌∙◌, false, not, ◌&&◌, ◌||◌, Text, text_eq, contains, has_byte, any, any-sort,
  if◌then◌else◌, List, none, ok,
}
use gatte.Access.{name_separator}
use gatte.Quota.{Provider, is_nil}
use gatte.Quota.Plan.{Plan, new_plan, by_name}
use gatte.Quota.Index.{new_plan_made}
use gatte.Quota.Declared.{is_declared-new_plan}
use gatte.Gateway.{namespaced}
use gatte.Gateway.Names.{split_namespaced-namespaced}
use gatte.Gateway.Admit.{Routes, lookup}
use gatte.Gateway.Routes.{is_undeclared, withhold_undeclared}
use gatte.Gateway.Routes.Table.{lookup-withhold_undeclared}

module _ (providers : List Provider) (free_tools : List Text) {plan : Plan}
    (built : new_plan providers free_tools ≡ ok plan) (upstream name : Text)
    (unseparated : has_byte name_separator upstream ≡ false) (named : is_nil upstream ≡ false)
    (filled : is_nil name ≡ false) where
  is_undeclared_built : is_undeclared plan (namespaced upstream name) ≡ (
      any (λ q. text_eq q.upstream upstream) providers
      && not (
          any (λ q. contains q.tools (namespaced upstream name)) providers
          || contains plan.free (namespaced upstream name)))
  unfolding is_undeclared
  is_undeclared_built =
      let budgeted : any (λ q. text_eq q.upstream upstream) plan.providers
          ≡ any (λ q. text_eq q.upstream upstream) providers =
        ap (any (λ q. text_eq q.upstream upstream)) (new_plan_made providers free_tools built).1
        ∙ any-sort (λ q. text_eq q.upstream upstream) by_name providers in
      rw
        (
          is_undeclared,
          split_namespaced-namespaced upstream name unseparated named filled,
          budgeted,
          is_declared-new_plan providers free_tools (namespaced upstream name) built,
        )
        refl

  -- Under a plan that `new_plan` returns, a tool keeps its route unless some account is of its upstream,
  -- no account lists the tool and it is not one of the plan's free tools; then it has none. The
  -- upstream's name is not empty and holds no separator, and the tool's own name is not empty.
  pub lookup-withheld :
      (routes : Routes)
      → lookup (withhold_undeclared plan routes) (namespaced upstream name) ≡ (
          if any (λ q. text_eq q.upstream upstream) providers
            && not (
                any (λ q. contains q.tools (namespaced upstream name)) providers
                || contains plan.free (namespaced upstream name))
          then none
          else lookup routes (namespaced upstream name))
  lookup-withheld routes =
      lookup-withhold_undeclared plan routes (namespaced upstream name)
      ∙ ap (λ b. if b then none else lookup routes (namespaced upstream name)) is_undeclared_built
