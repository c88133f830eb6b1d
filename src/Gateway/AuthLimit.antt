-- ===== src/Gateway/AuthLimit.antt =====
-- internal/gateway/authlimit.go: which rejected requests reach the audit trail. A time is a number of
-- nanoseconds, 0 for the zero time. A float64 is the number that its 64 bits make, and the machine's
-- operations on it are a parameter, so whatever is proved holds under any rounding. The order in which Go
-- iterates over a map is a parameter, of which `evict` reads the first eight entries.
pub mod Sources
use gatte.Base.{
  ℕ, zero, suc, ◌+◌, ◌-◌, Bool, ℤ, pos, negsuc, true, false, ◌&&◌, not, Text, text_eq,
  if◌then◌else◌, List, [], ◌∷◌, Option, none, some, ltb, leb, ◌==◌, length,
}

-- The operations on float64: the value of a literal, `Duration.Seconds`, arithmetic and `<`.
pub record Floats : Type 0 where
  pub literal : ℕ → ℕ
  pub seconds : ℤ → ℕ
  pub add : ℕ → ℕ → ℕ
  pub sub : ℕ → ℕ → ℕ
  pub mul : ℕ → ℕ → ℕ
  pub less : ℕ → ℕ → Bool

-- `now.Sub(last)`.
abbrev pub elapsed : ℕ → ℕ → ℤ
elapsed now last = if leb last now then pos (now - last) else negsuc (last - now - 1)

abbrev pub per_source_rate : ℕ
per_source_rate = 5

abbrev pub per_source_burst : ℕ
per_source_burst = 20

abbrev pub global_rate : ℕ
global_rate = 50

abbrev pub global_burst : ℕ
global_burst = 200

abbrev pub marker_window : ℕ
marker_window = 60000000000

abbrev pub max_sources : ℕ
max_sources = 1024

pub data AuthVerdict : Type 0 where
  auth_admit auth_mark auth_drop : AuthVerdict

pub record Bucket : Type 0 where
  pub tokens : ℕ
  pub last : ℕ
  pub marker : ℕ
  pub seen : ℕ

abbrev pub new_bucket : Bucket
new_bucket = record { tokens = 0; last = 0; marker = 0; seen = 0 }

-- The tokens at an instant, after the refill.
unfoldable pub refilled : Floats → Bucket → ℕ → ℕ → ℕ → ℕ
refilled fl b now rate burst =
    if b.last == 0
    then burst
    else let tokens = fl.add b.tokens (fl.mul (fl.seconds (elapsed now b.last)) rate) in
      if fl.less burst tokens then burst else tokens

unfoldable pub take : Floats → Bucket → ℕ → ℕ → ℕ → Bucket × Bool
unfolding refilled
take fl b now rate burst =
    let tokens = refilled fl b now rate burst in
    if fl.less tokens (fl.literal 1)
    then (record b { tokens = tokens; last = now; seen = now }, false)
    else (record b { tokens = fl.sub tokens (fl.literal 1); last = now; seen = now }, true)

abbrev pub Sources : Type 0
Sources = List (Text × Bucket)

pub record AuthLimiter : Type 0 where
  pub sources : Sources
  pub global : Bucket
  pub global_marker : ℕ
  pub suppressed : ℕ

abbrev pub new_auth_limiter : AuthLimiter
new_auth_limiter = record { sources = []; global = new_bucket; global_marker = 0; suppressed = 0 }

unfoldable pub bucket_of : Sources → Text → Option Bucket
unfolding text_eq
bucket_of [] source = none
bucket_of ((s, b) ∷ m) source = if text_eq s source then some b else bucket_of m source

-- `m[source] = b`.
unfoldable pub put : Sources → Text → Bucket → Sources
unfolding text_eq
put [] source b = (source, b) ∷ []
put ((s, c) ∷ m) source b = if text_eq s source then (s, b) ∷ m else (s, c) ∷ put m source b

unfoldable pub remove : Sources → Text → Sources
unfolding text_eq
remove [] source = []
remove ((s, c) ∷ m) source = if text_eq s source then m else (s, c) ∷ remove m source

-- The loop of `evict` over at most `n` more entries: the entry seen longest ago.
unfoldable pub oldest_of : ℕ → Text → ℕ → Sources → Text
oldest_of zero victim oldest m = victim
oldest_of (suc n) victim oldest [] = victim
oldest_of (suc n) victim oldest ((s, b) ∷ m) =
    let replaced = oldest_of n s b.seen m in
    let kept = oldest_of n victim oldest m in if ltb b.seen oldest then replaced else kept

unfoldable pub evict : (Sources → Sources) → Sources → Sources
unfolding oldest_of remove
evict iteration m = elim (iteration m) [
  | [] ↦ m
  | (s, b) ∷ rest ↦
      let victim = oldest_of 7 s b.seen rest in if text_eq victim [] then m else remove m victim
]

-- The sources and whether the source is within its budget.
unfoldable pub source_allows : Floats → (Sources → Sources) → Sources → Text → ℕ → Sources × Bool
unfolding bucket_of put evict take
source_allows fl iteration m source now = elim (bucket_of m source) [
  | some b ↦
      let (b', allowed) =
        take fl b now (fl.literal per_source_rate) (fl.literal per_source_burst) in
      (put m source b', allowed)
  | none ↦
      let m' = if leb max_sources (length m) then evict iteration m else m in
      if leb max_sources (length m')
      then (m', true)
      else let (b', allowed) =
          take fl new_bucket now (fl.literal per_source_rate) (fl.literal per_source_burst) in
        (put m' source b', allowed)
]

abbrev less_than : ℤ → ℕ → Bool
less_than (pos n) w = ltb n w
less_than (negsuc n) w = true

abbrev pub is_marked : ℕ → ℕ → Bool
is_marked marker now = not (marker == 0) && less_than (elapsed now marker) marker_window

unfoldable pub mark_source : Sources → Text → ℕ → Sources × Bool
unfolding bucket_of put
mark_source m source now = elim (bucket_of m source) [
  | none ↦ (m, false)
  | some b ↦
      if is_marked b.marker now
      then (m, false)
      else (put m source (record b { marker = now }), true)
]

abbrev pub marked_or_dropped : Bool → AuthLimiter → AuthLimiter × AuthVerdict
marked_or_dropped true l = (l, auth_mark)
marked_or_dropped false l = (record l { suppressed = suc l.suppressed }, auth_drop)

-- A request over its source's budget, and one over the budget of all sources.
unfoldable pub over_source : AuthLimiter → Text → ℕ → AuthLimiter × AuthVerdict
unfolding mark_source
over_source l source now =
    let (sources, marked) = mark_source l.sources source now in
    marked_or_dropped marked (record l { sources = sources })

unfoldable pub over_global : AuthLimiter → ℕ → AuthLimiter × AuthVerdict
over_global l now =
    if is_marked l.global_marker now
    then marked_or_dropped false l
    else marked_or_dropped true (record l { global_marker = now })

unfoldable pub classify :
    Floats → (Sources → Sources) → AuthLimiter → Text → ℕ → AuthLimiter × AuthVerdict
unfolding source_allows take over_source over_global
classify fl iteration l source now =
    let (sources, source_ok) = source_allows fl iteration l.sources source now in
    let l' = record l { sources = sources } in
    if not source_ok
    then over_source l' source now
    else let (global, global_ok) =
        take fl l.global now (fl.literal global_rate) (fl.literal global_burst) in
      let l'' = record l' { global = global } in
      if global_ok then (l'', auth_admit) else over_global l'' now
