-- ===== src/Tests/AuthLimit.antt =====
-- The limit on the rows of rejected requests at concrete inputs.
use gatte.Base.{◌+◌, ◌-◌, ◌*◌, ◌/◌, ◌≤◌, ◌≡◌, refl, codes, length, arith, pos_part, ltb}
use gatte.Gateway.AuthLimit.{Floats, max_sources, Sources, new_auth_limiter, classify, auth_admit}
use gatte.Gateway.AuthLimit.Sources.{classify_sources}

-- Nanotokens in place of bits.
abbrev floats : Floats
floats = record {
  literal = λ n. n * 1000000000;
  seconds = pos_part;
  add = λ a b. a + b;
  sub = λ a b. a - b;
  mul = λ a b. a * b / 1000000000;
  less = ltb;
}

abbrev iteration : Sources → Sources
iteration m = m

first_is_admitted :
    (classify floats iteration new_auth_limiter (codes "192.0.2.1") 5).1 ≡ auth_admit
unfolding classify
first_is_admitted = refl

classify_sources_example :
    length (classify floats iteration new_auth_limiter (codes "192.0.2.1") 5).0.sources
    ≤ max_sources
classify_sources_example =
    classify_sources floats iteration new_auth_limiter (codes "192.0.2.1") 5 (omega arith)
