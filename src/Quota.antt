-- ===== src/Quota.antt =====
-- internal/quota/quota.go: providers, charges and reservations. A `time.Time` is its distance in
-- nanoseconds from the zero time and the offset of its zone in seconds; instants before the zero time
-- are left out. A `time.Duration` and an `int` are signed numbers. An error is the list of the rules
-- that are broken, and the empty list is nil; the texts of the messages are left out.
pub mod Plan
pub mod Store
pub mod Gate
pub mod Windows
pub mod Calls
pub mod Ledger
pub mod Index
pub mod Declared
use gatte.Base.{
  ℕ, ◌+◌, ◌-◌, ◌%◌, Bool, true, false, ◌&&◌, ◌||◌, not, Text, text_eq, contains, is_blank,
  is_trimmed, if◌then◌else◌, List, [], ◌∷◌, ◌++◌, ℤ, pos, negsuc, is_nonpos, le_limit, pos_part,
  ℤ_eq, leb, ltb, ◌==◌, when,
}

pub record Time : Type 0 where
  pub instant : ℕ
  pub offset : ℤ

abbrev pub is_zero_time : Time → Bool
is_zero_time t = t.instant == 0

abbrev pub utc : Time → Time
utc t = record t { offset = pos 0 }

-- `Truncate`, which leaves a time as it is where the duration is not positive.
unfoldable pub truncate : Time → ℤ → Time
truncate t d = if is_nonpos d then t else record t { instant = t.instant - t.instant % pos_part d }

-- `Add` of a duration that is not negative; one below zero counts as zero.
unfoldable pub add_duration : Time → ℤ → Time
add_duration t d = record t { instant = t.instant + pos_part d }

pub record Provider : Type 0 where
  pub name : Text
  pub upstream : Text
  pub limit : ℤ
  pub window : ℤ
  pub tools : List Text

pub data ProviderError : Type 0 where
  name_untrimmed name_empty upstream_empty limit_not_positive window_not_positive : ProviderError
  no_tools tool_empty : ProviderError
  tool_repeated : Text → ProviderError

-- The loop over the tools; `seen` holds those accepted before.
unfoldable pub tool_errors : List Text → List Text → List ProviderError
unfolding is_blank contains
tool_errors seen [] = []
tool_errors seen (tool ∷ tools) =
    let skip = tool_errors seen tools in
    let keep = tool_errors (tool ∷ seen) tools in
    if is_blank tool
    then tool_empty ∷ skip
    else if contains seen tool
    then tool_repeated tool ∷ skip
    else keep

abbrev pub is_nil {ℓ} : {A : Type ℓ} → List A → Bool
is_nil [] = true
is_nil (x ∷ xs) = false

unfoldable pub validate_provider : Provider → List ProviderError
unfolding is_trimmed is_blank tool_errors
validate_provider p =
    when (not (is_trimmed p.name)) name_untrimmed
    ++ (when (is_blank p.name) name_empty
        ++ (when (is_blank p.upstream) upstream_empty
            ++ (when (is_nonpos p.limit) limit_not_positive
                ++ (when (is_nonpos p.window) window_not_positive
                    ++ (when (is_nil p.tools) no_tools ++ tool_errors [] p.tools)))))

unfoldable pub window_start : Provider → Time → Time
unfolding truncate
window_start p t = truncate (utc t) p.window

pub record Charge : Type 0 where
  pub provider : Text
  pub limit : ℤ
  pub window_start : Time
  pub window_end : Time

unfoldable pub fits : Charge → ℕ → Bool
fits c used = le_limit used c.limit

pub data ReservationError : Type 0 where
  charge_empty charge_limit charge_zero_start charge_not_utc charge_ends_early : ReservationError
  analyst_empty no_charges : ReservationError
  charged_twice : Text → ReservationError

unfoldable pub validate_charge : Charge → List ReservationError
unfolding is_blank
validate_charge c =
    when (is_blank c.provider) charge_empty
    ++ (when (is_nonpos c.limit) charge_limit
        ++ (when (is_zero_time c.window_start) charge_zero_start
            ++ (when (not (ℤ_eq c.window_start.offset (pos 0))) charge_not_utc
                ++ when (leb c.window_end.instant c.window_start.instant) charge_ends_early)))

pub record Reservation : Type 0 where
  pub analyst : Text
  pub charges : List Charge

-- The loop over the charges; `seen` holds the accounts of those accepted before.
unfoldable pub charge_errors : List Text → List Charge → List ReservationError
unfolding validate_charge contains
charge_errors seen [] = []
charge_errors seen (c ∷ cs) =
    let skip = charge_errors seen cs in
    let keep = charge_errors (c.provider ∷ seen) cs in
    if not (is_nil (validate_charge c))
    then validate_charge c ++ skip
    else if contains seen c.provider
    then charged_twice c.provider ∷ skip
    else keep

unfoldable pub validate_reservation : Reservation → List ReservationError
unfolding is_blank charge_errors
validate_reservation r =
    when (is_blank r.analyst) analyst_empty
    ++ (when (is_nil r.charges) no_charges ++ charge_errors [] r.charges)
