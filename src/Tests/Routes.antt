-- ===== src/Tests/Routes.antt =====
-- Names and routing tables at concrete inputs.
use gatte.Base.{
  any, not, ◌&&◌, ◌||◌, contains, has_byte, ◌==◌, ◌≡◌, refl, if◌then◌else◌, codes, List, ◌↔◌,
  text_eq, pos, ok, err, true, is_blank, trim_space, cut, cut_prefix, [], ◌∷◌, none, some,
}
use gatte.Gateway.{namespaced, split_namespaced}
use gatte.Registry.Validate.{
  Parsers, validate_entry, validate_upstream_name, safe_upstream_name, is_reserved, valid_name,
  validate_transport, reject_set, validate_unused, validate_env_vars, to_lower, validate_image,
  digest_pinned, image_unpinned,
}
use gatte.Registry.Validate.Names.{validate_entry-split}
use gatte.Gateway.Admit.{Routes, lookup}
use gatte.Gateway.Routes.{merge_routes, withhold_undeclared}
use gatte.Gateway.Routes.Table.{claims, lookup-merge_routes}
use gatte.Gateway.Routes.Withheld.{lookup-withheld}
use gatte.Gateway.Coverage.{
  quota_coverage, covered, uncovered, shared_credential, unregistered, declared, by_env_var,
  shared_others, shared_vars, shared_entries, uncounted,
}
use gatte.Gateway.Coverage.Shared.{IsCovered, quota_coverage-IsCovered}
use gatte.Registry.{UpstreamServer}
use gatte.Tests.Quota.{account, plan, plan_is_built}
use gatte.Tests.Gateway.{name, routed, routes, acting}

-- One name claimed twice and one claimed once.
abbrev candidates : Routes
candidates = (name, routed) ∷ (codes "edr.isolate", acting) ∷ (name, acting) ∷ []

lookup-merge_routes_example :
    lookup (merge_routes candidates) name
    ≡ (if claims candidates name == 1 then lookup candidates name else none)
lookup-merge_routes_example = lookup-merge_routes candidates name

lookup-withheld_example :
    lookup (withhold_undeclared plan ((codes "ti.scan", routed) ∷ routes)) (codes "ti.scan") ≡ (
      if any (λ q. text_eq q.upstream (codes "ti")) (account ∷ [])
        && not (
            any (λ q. contains q.tools (codes "ti.scan")) (account ∷ [])
            || contains plan.free (codes "ti.scan"))
      then none
      else lookup ((codes "ti.scan", routed) ∷ routes) (codes "ti.scan"))
unfolding has_byte namespaced
lookup-withheld_example =
    lookup-withheld (account ∷ []) [] plan_is_built (codes "ti") (codes "scan") refl refl refl
      ((codes "ti.scan", routed) ∷ routes)

scan_is_withheld :
    lookup (withhold_undeclared plan ((codes "ti.scan", routed) ∷ routes)) (codes "ti.scan") ≡ none
unfolding lookup withhold_undeclared
scan_is_withheld = refl

lookup_is_routed : lookup (withhold_undeclared plan routes) name ≡ lookup routes name
unfolding lookup withhold_undeclared
lookup_is_routed = refl

-- The budgeted upstream, and a second one with the same credential.
abbrev entry : UpstreamServer
entry = record {
  name = codes "ti";
  transport = codes "stdio";
  command = codes "/usr/bin/ti";
  args = [];
  image = [];
  url = [];
  env_var_names = codes "TI_KEY" ∷ [];
  auth_kind = [];
  auth_name = [];
  operations = [];
  created_at = record { instant = 1; offset = pos 0 };
  updated_at = record { instant = 1; offset = pos 0 };
}

abbrev entries : List UpstreamServer
entries =
    entry
    ∷ record entry { name = codes "ti2"; env_var_names = codes "LOG" ∷ codes "TI_KEY" ∷ [] }
    ∷ []

quota_coverage-IsCovered_example :
    (quota_coverage (some plan) entries ≡ covered) ↔ IsCovered plan.providers entries
quota_coverage-IsCovered_example = quota_coverage-IsCovered plan entries

second_key :
    quota_coverage (some plan) entries
    ≡ uncovered
        (codes "ti2" ∷ [])
        (shared_credential (codes "ti") (codes "ti2") (codes "TI_KEY") ∷ [])
unfolding quota_coverage unregistered declared by_env_var shared_others shared_vars shared_entries
    uncounted text_eq
second_key = refl

-- A library that reads no URL and no JSON, which an entry of a process does not need.
abbrev no_parsers : Parsers
no_parsers = record { parse_url = λ t. none; array_length = λ t. none }

entry-valid : validate_entry no_parsers entry ≡ ok tt
unfolding validate_entry validate_upstream_name safe_upstream_name is_reserved validate_transport
    reject_set validate_unused validate_env_vars to_lower text_eq has_byte is_blank trim_space
entry-valid = refl

validate_entry-split_example :
    (valid_name (codes "ti") ≡ true)
    × (split_namespaced (namespaced (codes "ti") (codes "ip.lookup"))
        ≡ some (codes "ti", codes "ip.lookup"))
validate_entry-split_example =
    validate_entry-split no_parsers entry (codes "ip.lookup") entry-valid refl

tagged_image : validate_image (codes "mcp-ti:latest") ≡ err image_unpinned
unfolding validate_image digest_pinned is_blank trim_space text_eq cut cut_prefix
tagged_image = refl
