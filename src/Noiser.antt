-- ===== src/Noiser.antt =====
-- services/auction_service/reporting/noiser_and_bucketer.cc: random numbers, buckets, noise. A
-- random computation reads the 64-bit values that RAND_bytes has given, in order: `none` is a call
-- that failed, and a computation that needs more values than there are is `starved`.
pub mod Buckets
pub mod Generator
pub mod Noise
pub mod Rounding
use bas_dev.Common.{
  ℕ, suc, ◌+◌, ◌-◌, ◌*◌, ◌/◌, ◌%◌, ◌^◌, ◌≡◌, Bool, true, false, List, [], ◌∷◌, Option, none, some,
  ltb, leb, ◌==◌, nat_eq, if◌then◌else◌,
}
use bas_dev.Common.Int.{ℤ, pos, negsuc, pos_part, neg_part, ◌+ℤ◌, ◌-ℤ◌, leb_ℤ, ltb_ℤ}

abbrev pub u64_max : ℕ
u64_max = 2 ^ 64 - 1

pub data Drawn {ℓ} (A : Type ℓ) : Type ℓ where
  ok : A → List (Option ℕ) → Drawn A
  internal_error : List (Option ℕ) → Drawn A
  starved : Drawn A

-- A computation over the values still to be read.
abbrev pub Rand {ℓ} : Type ℓ → Type ℓ
Rand A = List (Option ℕ) → Drawn A

abbrev pub pure {ℓ} : {A : Type ℓ} → A → Rand A
pure a draws = ok a draws

abbrev pub fail {ℓ} : {A : Type ℓ} → Rand A
fail draws = internal_error draws

infixl 5 ◌>>=◌
abbrev pub ◌>>=◌ {ℓ κ} : {A : Type ℓ} {B : Type κ} → Rand A → (A → Rand B) → Rand B
◌>>=◌ m k draws = elim (m draws) [
  | ok a rest ↦ k a rest
  | internal_error rest ↦ internal_error rest
  | starved ↦ starved
]

unfoldable pub rand_uint64 : Rand ℕ
rand_uint64 [] = starved
rand_uint64 (none ∷ rest) = internal_error rest
rand_uint64 (some x ∷ rest) = ok x rest

unfoldable pub max_acceptable_value : ℕ → ℕ
max_acceptable_value range = u64_max / range * range - 1

-- The `do … while` of `RandGenerator`, one value a round.
unfoldable pub rand_generator : ℕ → Rand ℕ
unfolding max_acceptable_value
rand_generator range [] = starved
rand_generator range (none ∷ rest) = internal_error rest
rand_generator range (some x ∷ rest) =
    let again = rand_generator range rest in
    if ltb (max_acceptable_value range) x then again else ok (x % range) rest

-- A `uint64_t` stored in an `int` of 32 bits.
unfoldable pub to_int32 : ℕ → ℤ
to_int32 n = let low = n % 2 ^ 32 in if ltb low (2 ^ 31) then pos low else negsuc (2 ^ 32 - 1 - low)

-- The `int` arithmetic of `RandInt`, which overflows where a range or a result does not fit an `int`,
-- is unbounded here; what is proved of it assumes a range that fits.
unfoldable pub rand_int : ℤ → ℤ → Rand ℤ
unfolding ◌-ℤ◌ ◌+ℤ◌ to_int32
rand_int min max = if leb_ℤ max min then fail else (do
  rand_unit64 ← rand_generator (pos_part (max -ℤ min) + 1)
  pure (to_int32 rand_unit64 +ℤ min))

unfoldable pub bucket_join_count : ℤ → ℕ
bucket_join_count join_count =
    let n = if ltb_ℤ join_count (pos 1) then 1 else pos_part join_count in
    if leb n 10
    then n
    else if leb n 20
    then 11
    else if leb n 30
    then 12
    else if leb n 40
    then 13
    else if leb n 50
    then 14
    else if leb n 100
    then 15
    else 16

unfoldable pub bucket_recency : ℤ → ℕ
bucket_recency recency =
    let n = if ltb_ℤ recency (pos 0) then 0 else pos_part recency in
    if ltb n 10
    then n
    else if ltb n 15
    then 10
    else if ltb n 20
    then 11
    else if ltb n 30
    then 12
    else if ltb n 40
    then 13
    else if ltb n 50
    then 14
    else if ltb n 60
    then 15
    else if ltb n 75
    then 16
    else if ltb n 90
    then 17
    else if ltb n 105
    then 18
    else if ltb n 120
    then 19
    else if ltb n 240
    then 20
    else if ltb n 720
    then 21
    else if ltb n 1440
    then 22
    else if ltb n 2160
    then 23
    else if ltb n 2880
    then 24
    else if ltb n 4320
    then 25
    else if ltb n 5760
    then 26
    else if ltb n 10080
    then 27
    else if ltb n 20160
    then 28
    else if ltb n 30240
    then 29
    else if ltb n 40320
    then 30
    else 31

-- `static_cast` to an unsigned type of the given width.
abbrev pub to_unsigned : ℕ → ℤ → ℕ
to_unsigned bits (pos n) = n % 2 ^ bits
to_unsigned bits (negsuc n) = 2 ^ bits - 1 - n % 2 ^ bits

-- The second draw of `Noise`: where it fails the input is returned.
unfoldable pub replace : ℕ → ℕ → ℤ → ℤ → Rand ℕ
unfolding rand_int
replace bits input min max draws = elim (rand_int min max draws) [
  | ok v rest ↦ ok (to_unsigned bits v) rest
  | internal_error rest ↦ ok input rest
  | starved ↦ starved
]

abbrev is_one : ℤ → Bool
is_one (pos n) = n == 1
is_one (negsuc n) = false

-- `Noise<T>` at an unsigned `T` of the given width.
unfoldable pub noise : ℕ → ℕ → ℤ → ℤ → Rand ℕ
unfolding replace rand_int
noise bits input min max = do
  rand_one_percent_int ← rand_int (pos 0) (pos 100)
  if is_one rand_one_percent_int then replace bits input min max else pure input

abbrev pub noise_mask : ℕ
noise_mask = 0x0FFF

-- `& kMask` keeps the low twelve bits.
unfoldable pub noise_and_mask_modeling_signals : ℕ → Rand ℕ
noise_and_mask_modeling_signals modeling_signals =
    noise 16 (modeling_signals % 2 ^ 12) (pos 0) (pos noise_mask)

unfoldable pub noise_and_bucket_join_count : ℤ → Rand ℕ
noise_and_bucket_join_count join_count = noise 8 (bucket_join_count join_count) (pos 1) (pos 16)

unfoldable pub noise_and_bucket_recency : ℤ → Rand ℕ
noise_and_bucket_recency recency = noise 8 (bucket_recency recency) (pos 0) (pos 31)
