-- ===== src/Heartbeat/Fatigue.antt =====
-- engines/heartbeat/fatigue.py. The thresholds are percentages; `node_count / soft_limit` and the
-- product by 100 are rounded to doubles, as Python's are.
pub mod Hint
use krakey_bot.Base.{
  ℕ, zero, suc, ◌+◌, ◌*◌, ◌-◌, ◌/◌, ◌%◌, ◌^◌, String, Bool, true, false, List, [], ◌∷◌, Option,
  none, some, if◌then◌else◌, ltb, leb, nat_beq, is_empty, nat_eq,
}
use krakey_bot.Base.Dict
use krakey_bot.Base.Dict.{Dict}
use krakey_bot.Base.Sort.{sort_by}

abbrev pub low_fatigue_hint : String
low_fatigue_hint = "(energy is high; no need to sleep)"

-- A double that is not negative: `mantissa / 2 ^ scale`.
record Double : Type 0 where
  mantissa : ℕ
  scale : ℕ

-- The nearest number to `n / d`, and the even one of two nearest.
abbrev round_half_even : ℕ → ℕ → ℕ
round_half_even n d =
    let q = n / d in
    let r = 2 * (n % d) in
    if ltb r d then q else if ltb d r then q + 1 else if nat_beq (q % 2) 0 then q else q + 1

-- `n / d` to 53 bits: doubled until the quotient has them, on fuel of 53 and the bits of `d`.
round_small : ℕ → ℕ → ℕ → ℕ → Double
round_small zero n d k = record { mantissa = round_half_even n d; scale = k }
round_small (suc f) n d k =
    let more = round_small f (2 * n) d (suc k) in
    if ltb n (d * 2 ^ 52) then more else record { mantissa = round_half_even n d; scale = k }

-- A quotient of more than 53 bits loses its last ones.
round_big : ℕ → ℕ → ℕ → ℕ → Double
round_big zero n d k = record { mantissa = round_half_even n d * 2 ^ k; scale = 0 }
round_big (suc f) n d k =
    let more = round_big f n (2 * d) (suc k) in
    if ltb n (d * 2 ^ 53)
    then record { mantissa = round_half_even n d * 2 ^ k; scale = 0 }
    else more

round_double : ℕ → ℕ → Double
unfolding round_small round_big
round_double n d =
    if nat_beq n 0
    then record { mantissa = 0; scale = 0 }
    else if ltb n (d * 2 ^ 53)
    then round_small (53 + d) n d 0
    else round_big n n d 0

-- int((node_count / soft_limit) * 100)
unfoldable pub percent : ℕ → ℕ → ℕ
unfolding round_double
percent node_count soft_limit =
    let quotient = round_double node_count soft_limit in
    let product = round_double (quotient.mantissa * 100) (2 ^ quotient.scale) in
    product.mantissa / 2 ^ product.scale

-- The loop over the sorted thresholds, from the one `matched` on.
abbrev climb : ℕ → Option ℕ → List ℕ → Option ℕ
climb pct matched [] = matched
climb pct matched (t ∷ ts) = let rest = climb pct (some t) ts in if leb t pct then rest else matched

unfoldable pub matched_threshold : ℕ → Dict ℕ String → Option ℕ
matched_threshold pct thresholds = climb pct none (sort_by (λ t. t) (Dict.keys thresholds))

-- `thresholds[matched]`, of a key that is there.
abbrev hint_at : Dict ℕ String → Option ℕ → String
hint_at thresholds none = low_fatigue_hint
hint_at thresholds (some t) = elim (Dict.get t thresholds) [ none ↦ "" | some h ↦ h ]

unfoldable pub fatigue_hint : ℕ → Dict ℕ String → String
unfolding matched_threshold
fatigue_hint pct thresholds =
    if is_empty thresholds then "" else hint_at thresholds (matched_threshold pct thresholds)

unfoldable pub calculate_fatigue : ℕ → ℕ → Dict ℕ String → ℕ × String
unfolding percent fatigue_hint
calculate_fatigue node_count soft_limit thresholds =
    let pct = if nat_beq soft_limit 0 then 0 else percent node_count soft_limit in
    (pct, fatigue_hint pct thresholds)
