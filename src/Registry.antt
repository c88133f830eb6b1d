-- ===== src/Registry.antt =====
-- internal/registry/registry.go: the entry of a backend server.
pub mod Validate
use gatte.Base.{List, Text}
use gatte.Quota.{Time}

-- A transport and a kind of credential are texts, as in the source.
pub record UpstreamServer : Type 0 where
  pub name : Text
  pub transport : Text
  pub command : Text
  pub args : List Text
  pub image : Text
  pub url : Text
  pub env_var_names : List Text
  pub auth_kind : Text
  pub auth_name : Text
  pub operations : Text
  pub created_at : Time
  pub updated_at : Time
