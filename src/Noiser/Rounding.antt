-- ===== src/Noiser/Rounding.antt =====
-- `RoundStochasticallyToKBits` of noiser_and_bucketer.cc on doubles given by their mantissa and
-- exponent, for at most 53 bits. All of its arithmetic is exact, so it is done on integers.
use native.Mathlib.Nat.{
  one-le-pow, mul-lt-mul_of_pos_right, mul-le-mul, le_refl, div-lt_iff_lt-mul, mul_comm,
}
use native.Mathlib.Decide.{dec_lt}
use bas_dev.Common.{
  ap, ◌∙◌, ℕ, ◌+◌, ◌-◌, ◌*◌, ◌/◌, ◌%◌, ◌^◌, ◌≤◌, ◌<◌, ◌≡◌, refl, sym, Bool, true, false, not, ◌&&◌,
  List, ◌∷◌, Option, some, arith, ltb, leb, ◌==◌, nat_eq, nat_beq_iff, if◌then◌else◌, passes_under,
  passes_under-at,
}
use bas_dev.Common.Int.{ℤ, pos, negsuc, ltb_ℤ, ◌≤ℤ◌, ◌<ℤ◌}
use bas_dev.Noiser.{Rand, ok, pure, fail, ◌>>=◌, rand_uint64}

-- `finite neg m e` is the number m * 2 ^ (e - 53), negated if `neg`. `frexp` gives e as the
-- exponent of a number whose m lies in [2 ^ 52, 2 ^ 53).
pub data Double : Type 0 where
  nan : Double
  infinite signed_zero : Bool → Double
  finite : Bool → ℕ → ℤ → Double

-- `BitsToOpenEndedUnitInterval`: the result in multiples of 2 ^ -53.
abbrev pub bits_to_open_ended_unit_interval : ℕ → ℕ
bits_to_open_ended_unit_interval bits = bits % 2 ^ 53

pub rand_double : Rand ℕ
unfolding rand_uint64
rand_double = do rand_64 ← rand_uint64; pure (bits_to_open_ended_unit_interval rand_64)

abbrev is_max_exponent : ℤ → Bool
is_max_exponent (pos e) = e == 127
is_max_exponent (negsuc e) = false

-- The increment of the mantissa by one unit of the last kept bit.
incremented : ℕ → Bool → ℕ → ℤ → Rand Double
incremented k neg truncated e =
    let up = truncated + 1 in
    if is_max_exponent e && leb (2 ^ k) up
    then if not (up == 2 ^ k) then fail else pure (infinite neg)
    else pure (finite neg (up * 2 ^ (53 - k)) e)

pub round_stochastically_to_k_bits : Double → ℕ → Rand Double
unfolding rand_double incremented
round_stochastically_to_k_bits nan k = pure nan
round_stochastically_to_k_bits (infinite neg) k = pure (infinite neg)
round_stochastically_to_k_bits (signed_zero neg) k = do _ ← rand_double; pure (signed_zero neg)
round_stochastically_to_k_bits (finite neg m e) k =
    if ltb_ℤ e (negsuc 127)
    then pure (signed_zero neg)
    else if ltb_ℤ (pos 127) e
    then pure (infinite neg)
    else (do
      rand ← rand_double
      let unit = 2 ^ (53 - k)
      let truncated = m / unit
      if ltb (rand * unit) (m % unit * 2 ^ 53)
          then incremented k neg truncated e
          else pure (finite neg (truncated * unit) e))

-- A unit of the last kept bit times the number of mantissas of `k` bits is 2 ^ 53.
unit_table : passes_under (λ k. 2 ^ (53 - k) * 2 ^ k == 2 ^ 53) 54 ≡ true
unfolding passes_under
unit_table = refl

unit-mul : (k : ℕ) → k ≤ 53 → 2 ^ (53 - k) * 2 ^ k ≡ 2 ^ 53
unit-mul k h =
    (nat_beq_iff _ _).0
      (passes_under-at (λ i. 2 ^ (53 - i) * 2 ^ i == 2 ^ 53) 54 (omega arith) unit_table)

unit_pos : (k : ℕ) → k ≤ 53 → 0 < 2 ^ (53 - k)
unit_pos k h = one-le-pow (53 - k) 2 (omega arith)

regroup : (k f : ℕ) → k ≤ 53 → f * 2 ^ 53 ≡ f * 2 ^ k * 2 ^ (53 - k)
regroup k f h = ap (λ (t : ℕ). f * t) (sym (unit-mul k h)) ∙ omega arith

ltb-mul : (a b u : ℕ) → 0 < u → ltb (a * u) (b * u) ≡ ltb a b
ltb-mul a b u h = elim (dec_lt a b) [
  | yes p ↦ let q : a * u < b * u = mul-lt-mul_of_pos_right p h in ground arith
  | no p ↦
      let q : b * u ≤ a * u = mul-le-mul (let b_le : b ≤ a = omega arith in b_le) (le_refl u) in
      ground arith
]

-- The two neighbours of a value among those with `k` bits; past the largest exponent the upper
-- one is infinite.
abbrev below : ℕ → Bool → ℕ → ℤ → Double
below k neg m e = finite neg (m / 2 ^ (53 - k) * 2 ^ (53 - k)) e

abbrev above : ℕ → Bool → ℕ → ℤ → Double
above k neg m e =
    if is_max_exponent e && m / 2 ^ (53 - k) + 1 == 2 ^ k
    then infinite neg
    else finite neg ((m / 2 ^ (53 - k) + 1) * 2 ^ (53 - k)) e

truncated-lt : (k m : ℕ) → k ≤ 53 → m < 2 ^ 53 → m / 2 ^ (53 - k) < 2 ^ k
truncated-lt k m h small =
    let whole = unit-mul k h in
    (div-lt_iff_lt-mul (unit_pos k h)).1 (rw (mul_comm (2 ^ k) (2 ^ (53 - k)), whole) small)

-- The test against the random double, as a count of its values.
rounds_up_iff : (k r f : ℕ) → k ≤ 53 → ltb (r * 2 ^ (53 - k)) (f * 2 ^ 53) ≡ ltb r (f * 2 ^ k)
rounds_up_iff k r f h = rw (regroup k f h) (ltb-mul r (f * 2 ^ k) (2 ^ (53 - k)) (unit_pos k h))

-- A finite value whose exponent fits eight bits is rounded to one of its two neighbours of `k`
-- bits, with no error once a random value was read. The upper neighbour is taken exactly if the random
-- double is one of the first `remainder * 2 ^ k` of the 2 ^ 53, the remainder being the part cut off.
pub round_stochastically_lem :
    (neg : Bool) (m k bits : ℕ) (e : ℤ) (rest : List (Option ℕ))
    → k ≤ 53
    → m < 2 ^ 53
    → negsuc 127 ≤ℤ e
    → e ≤ℤ pos 127
    → round_stochastically_to_k_bits (finite neg m e) k (some bits ∷ rest)
      ≡ ok
          (if ltb (bits % 2 ^ 53) (m % 2 ^ (53 - k) * 2 ^ k)
            then above k neg m e
            else below k neg m e)
          rest
unfolding round_stochastically_to_k_bits
round_stochastically_lem neg m k bits e rest h small low high =
    let up = truncated-lt k m h small in
    let count = rounds_up_iff k (bits % 2 ^ 53) (m % 2 ^ (53 - k)) h in ground arith

-- Outside that range a value becomes a zero or an infinity of its sign, and what is not finite
-- stays, with no random value read.
pub round_stochastically-outside :
    (neg : Bool) (m k : ℕ) (e : ℤ) (draws : List (Option ℕ))
    → (e <ℤ negsuc 127
        → round_stochastically_to_k_bits (finite neg m e) k draws ≡ ok (signed_zero neg) draws)
      × (pos 127 <ℤ e
          → round_stochastically_to_k_bits (finite neg m e) k draws ≡ ok (infinite neg) draws)
      × (round_stochastically_to_k_bits (infinite neg) k draws ≡ ok (infinite neg) draws)
      × (round_stochastically_to_k_bits nan k draws ≡ ok nan draws)
unfolding round_stochastically_to_k_bits
round_stochastically-outside neg m k e draws = (λ h. ground arith, λ h. ground arith, refl, refl)
