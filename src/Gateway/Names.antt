-- ===== src/Gateway/Names.antt =====
-- The names that clients see, and back.
use gatte.Base.{◌≡◌, sym, ap, ◌∙◌, false, Text, cut, cut-append, has_byte, some}
use gatte.Access.{name_separator, is_nil}
use gatte.Gateway.{namespaced, split_namespaced}

-- The name of a tool is split into its upstream and the tool's own name, which may hold a dot, where
-- neither is empty and the upstream's name holds no dot.
pub split_namespaced-namespaced :
    (upstream tool : Text)
    → has_byte name_separator upstream ≡ false
    → is_nil upstream ≡ false
    → is_nil tool ≡ false
    → split_namespaced (namespaced upstream tool) ≡ some (upstream, tool)
unfolding split_namespaced namespaced
split_namespaced-namespaced upstream tool h u t =
    rw (split_namespaced, namespaced, cut-append name_separator upstream tool h, u, t)

-- So two upstreams never share a name: what a name is routed to and what the trail says it was aimed at
-- agree.
pub namespaced-injective :
    (u u' t t' : Text)
    → has_byte name_separator u ≡ false
    → has_byte name_separator u' ≡ false
    → namespaced u t ≡ namespaced u' t'
    → (u ≡ u') × (t ≡ t')
unfolding namespaced
namespaced-injective u u' t t' h h' e =
    let same =
      sym (cut-append name_separator u t h)
      ∙ ap (cut name_separator) e
      ∙ cut-append name_separator u' t' h' in
    (cc, cc)
