-- ===== src/Noiser/Buckets.antt =====
-- The bucketing of join counts and recencies against tables of boundaries.
use bas_dev.Common.{
  true, ℕ, ◌+◌, ◌≤◌, ◌<◌, ◌≡◌, List, [], ◌∷◌, refl, arith, leb, ◌==◌, nat_eq, nat_beq_iff,
  if◌then◌else◌, passes_under, passes_under-at,
}
use native.Mathlib.Decide.{dec_lt}
use bas_dev.Common.Int.{ℤ, pos, negsuc, pos_part, ◌≤ℤ◌}
use bas_dev.Noiser.{bucket_join_count, bucket_recency}

-- The bucket of a number is how many boundaries it has reached.
abbrev pub reached : List ℕ → ℕ → ℕ
reached [] n = 0
reached (t ∷ ts) n = (if leb t n then 1 else 0) + reached ts n

abbrev pub join_count_boundaries : List ℕ
join_count_boundaries = 2 ∷ 3 ∷ 4 ∷ 5 ∷ 6 ∷ 7 ∷ 8 ∷ 9 ∷ 10 ∷ 11 ∷ 21 ∷ 31 ∷ 41 ∷ 51 ∷ 101 ∷ []

abbrev pub recency_boundaries : List ℕ
recency_boundaries =
    1 ∷ 2 ∷ 3 ∷ 4 ∷ 5 ∷ 6 ∷ 7 ∷ 8 ∷ 9 ∷ 10 ∷ 15 ∷ 20 ∷ 30 ∷ 40 ∷ 50 ∷ 60 ∷ 75 ∷ 90 ∷ 105 ∷ 120 ∷ 240
    ∷ 720 ∷ 1440 ∷ 2160 ∷ 2880 ∷ 4320 ∷ 5760 ∷ 10080 ∷ 20160 ∷ 30240 ∷ 40320 ∷ []

reached_mono : (ts : List ℕ) (m n : ℕ) → m ≤ n → reached ts m ≤ reached ts n
reached_mono [] m n h = omega arith
reached_mono (t ∷ ts) m n h = ground (arith, reached_mono ts m n h)

join_count_nat : (n : ℕ) → bucket_join_count (pos n) ≡ 1 + reached join_count_boundaries n
unfolding bucket_join_count
join_count_nat n = ground arith

-- The ladder in two ranges: below an hour and a half by evaluation, and from there on.
recency_near_table :
    passes_under (λ n. bucket_recency (pos n) == reached recency_boundaries n) 90 ≡ true
unfolding passes_under bucket_recency
recency_near_table = refl

recency_near : (n : ℕ) → n < 90 → bucket_recency (pos n) ≡ reached recency_boundaries n
recency_near n h = (nat_beq_iff _ _).0 (
    passes_under-at (λ i. bucket_recency (pos i) == reached recency_boundaries i) 90 h
      recency_near_table)

recency_far : (n : ℕ) → 90 ≤ n → bucket_recency (pos n) ≡ reached recency_boundaries n
unfolding bucket_recency
recency_far n h = ground (arith) steps 10000000

recency_nat : (n : ℕ) → bucket_recency (pos n) ≡ reached recency_boundaries n
recency_nat n = elim (dec_lt n 90) [
  | yes near ↦ recency_near n near
  | no far ↦ recency_far n (omega arith)
]

-- The bucket of a join count is one more than the number of the boundaries 2 to 11, 21, 31, 41, 51
-- and 101 that it has reached; a count below 1 falls in bucket 1.
pub bucket_join_count-reached :
    (join_count : ℤ)
    → bucket_join_count join_count ≡ 1 + reached join_count_boundaries (pos_part join_count)
unfolding bucket_join_count
bucket_join_count-reached (pos n) = join_count_nat n
bucket_join_count-reached (negsuc n) = ground arith

-- The bucket of a recency is the number of its 31 boundaries that it has reached; a negative
-- recency falls in bucket 0.
pub bucket_recency-reached :
    (recency : ℤ) → bucket_recency recency ≡ reached recency_boundaries (pos_part recency)
unfolding bucket_recency
bucket_recency-reached (pos n) = recency_nat n
bucket_recency-reached (negsuc n) = ground arith

pos_part_mono : (a b : ℤ) → a ≤ℤ b → pos_part a ≤ pos_part b
pos_part_mono a b h = ground arith

-- Larger inputs never fall in smaller buckets.
pub buckets_mono :
    (a b : ℤ)
    → a ≤ℤ b
    → (bucket_join_count a ≤ bucket_join_count b) × (bucket_recency a ≤ bucket_recency b)
buckets_mono a b h =
    let order : pos_part a ≤ pos_part b = pos_part_mono a b h in
    omega (
      arith,
      bucket_join_count-reached a,
      bucket_join_count-reached b,
      bucket_recency-reached a,
      bucket_recency-reached b,
      reached_mono join_count_boundaries (pos_part a) (pos_part b) order,
      reached_mono recency_boundaries (pos_part a) (pos_part b) order,
    )

pub bucket_join_count_bounds :
    (join_count : ℤ) → (1 ≤ bucket_join_count join_count) × (bucket_join_count join_count ≤ 16)
unfolding bucket_join_count
bucket_join_count_bounds join_count = ground arith

pub bucket_recency_bound : (recency : ℤ) → bucket_recency recency ≤ 31
unfolding bucket_recency
bucket_recency_bound recency = ground arith
