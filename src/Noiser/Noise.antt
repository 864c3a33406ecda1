-- ===== src/Noiser/Noise.antt =====
-- `Noise` and its three uses: what comes out, and when the input is replaced.
use native.Mathlib.Nat.{mod-eq_of_lt, mod-lt}
use bas_dev.Common.{
  ℕ, ◌%◌, ◌^◌, ◌≤◌, ◌<◌, ◌≡◌, inl, inr, refl, ap, sym, ◌∙◌, List, ◌∷◌, ◌++◌, Option, some, map,
  arith, All, ◌==◌, nat_eq, if◌then◌else◌, Bool-cases,
}
use bas_dev.Common.Int.{ℤ, pos, negsuc, ◌+ℤ◌, ◌-ℤ◌, ◌≤ℤ◌}
use bas_dev.Noiser.{
  Drawn, ok, internal_error, starved, max_acceptable_value, rand_int, to_int32, replace, noise,
  is_one, to_unsigned, noise_and_mask_modeling_signals, noise_and_bucket_join_count,
  noise_and_bucket_recency, bucket_join_count, bucket_recency,
}
use bas_dev.Noiser.Buckets.{bucket_join_count_bounds, bucket_recency_bound}
use bas_dev.Noiser.Generator.{rand_int_bounds, rand_int-to_int32}

-- What `replace` makes of its draw.
abbrev or_input : ℕ → ℕ → Drawn ℤ → Drawn ℕ
or_input bits input (ok v rest) = ok (to_unsigned bits v) rest
or_input bits input (internal_error rest) = ok input rest
or_input bits input starved = starved

replace-or_input :
    (bits input : ℕ) (min max : ℤ) (draws : List (Option ℕ))
    → replace bits input min max draws ≡ or_input bits input (rand_int min max draws)
unfolding replace
replace-or_input bits input min max draws = ground arith

-- What `noise` makes of its first draw.
abbrev after_first : ℕ → ℕ → ℤ → ℤ → Drawn ℤ → Drawn ℕ
after_first bits input min max (ok v rest) =
    if is_one v then replace bits input min max rest else ok input rest
after_first bits input min max (internal_error rest) = internal_error rest
after_first bits input min max starved = starved

noise-after_first :
    (bits input : ℕ) (min max : ℤ) (draws : List (Option ℕ))
    → noise bits input min max draws
      ≡ after_first bits input min max (rand_int (pos 0) (pos 100) draws)
unfolding noise
noise-after_first bits input min max draws = ground arith

-- The bounds that an input and its replacement share.
abbrev pub Between : ℕ → ℕ → ℕ → Type 0
Between lo hi v = (lo ≤ v) × (v ≤ hi)

module _ (bits lo hi input : ℕ) (order : lo < hi) (fits : hi < 2 ^ 31)
    (narrow : hi < 2 ^ bits) where
  to_unsigned-Between : (v : ℤ) → pos lo ≤ℤ v → v ≤ℤ pos hi → Between lo hi (to_unsigned bits v)
  to_unsigned-Between (pos n) p q =
      rw (mod-eq_of_lt (let small : n < 2 ^ bits = omega arith in small)) (omega arith)
  to_unsigned-Between (negsuc n) p q = absurd (omega arith)

  replace-Between :
      (draws : List (Option ℕ)) {v : ℕ} {rest : List (Option ℕ)}
      → Between lo hi input
      → replace bits input (pos lo) (pos hi) draws ≡ ok v rest
      → Between lo hi v
  replace-Between draws {v} {rest} h e =
      go (rand_int (pos lo) (pos hi) draws) refl (sym (replace-or_input bits input _ _ draws) ∙ e)
    where
      go :
          (d : Drawn ℤ)
          → rand_int (pos lo) (pos hi) draws ≡ d
          → or_input bits input d ≡ ok v rest
          → Between lo hi v
      go (ok w later) drawn k =
          let (low, high) = rand_int_bounds (pos lo) (pos hi) draws (omega arith) drawn in
          let inside = to_unsigned-Between w low high in
          let same : to_unsigned bits w ≡ v = ground arith in rw (← same) inside
      go (internal_error later) drawn k = let same : input ≡ v = ground arith in rw (← same) h
      go starved drawn k = cc

  -- Noise keeps a value between bounds that its replacements share, whatever the values read.
  pub noise-Between :
      (draws : List (Option ℕ)) {v : ℕ} {rest : List (Option ℕ)}
      → Between lo hi input
      → noise bits input (pos lo) (pos hi) draws ≡ ok v rest
      → Between lo hi v
  noise-Between draws {v} {rest} h e =
      go (rand_int (pos 0) (pos 100) draws) (sym (noise-after_first bits input _ _ draws) ∙ e)
    where
      go : (d : Drawn ℤ) → after_first bits input (pos lo) (pos hi) d ≡ ok v rest → Between lo hi v
      go (ok w later) k = elim (Bool-cases (is_one w)) [
        | inl one ↦ replace-Between later h (rw one at k)
        | inr other ↦ let same : input ≡ v = ground (arith, rw other at k) in rw (← same) h
      ]
      go (internal_error later) k = cc
      go starved k = cc

-- The three noised inputs of reportWin stay in the range of what they encode: twelve bits of
-- modeling signals, a join count bucket from 1 to 16, a recency bucket up to 31.
pub noised_bounds :
    (signals : ℕ) (join_count recency : ℤ) (draws : List (Option ℕ)) (v : ℕ)
    (rest : List (Option ℕ))
    → ((noise_and_mask_modeling_signals signals draws ≡ ok v rest) → v ≤ 0x0FFF)
      × ((noise_and_bucket_join_count join_count draws ≡ ok v rest) → (1 ≤ v) × (v ≤ 16))
      × ((noise_and_bucket_recency recency draws ≡ ok v rest) → v ≤ 31)
unfolding noise_and_mask_modeling_signals noise_and_bucket_join_count noise_and_bucket_recency
noised_bounds signals join_count recency draws v rest = (
  λ e.
      (noise-Between 16 0 0x0FFF (signals % 2 ^ 12) (omega arith) (omega arith) (omega arith) draws
        (omega arith) e).1,
  λ e.
      noise-Between 8 1 16 (bucket_join_count join_count) (omega arith) (omega arith) (omega arith)
        draws (bucket_join_count_bounds join_count) e,
  λ e.
      (noise-Between 8 0 31 (bucket_recency recency) (omega arith) (omega arith) (omega arith) draws
        (omega (arith, bucket_recency_bound recency)) e).1,
)

first_is_one : (n : ℕ) → n < 101 → is_one (to_int32 n +ℤ pos 0) ≡ (n == 1)
unfolding to_int32 ◌+ℤ◌
first_is_one n h = ground arith

-- Of the accepted values `x` the first draw can see, those with remainder 1 modulo 101 call for a
-- replacement, and on all others the input is returned.
pub noise-append :
    (bits input : ℕ) (min max : ℤ) (rejected : List ℕ) (x : ℕ) (rest : List (Option ℕ))
    → All (λ y. max_acceptable_value 101 < y) rejected
    → x ≤ max_acceptable_value 101
    → noise bits input min max (map some rejected ++ some x ∷ rest)
      ≡ (if x % 101 == 1 then replace bits input min max rest else ok input rest)
unfolding ◌-ℤ◌
noise-append bits input min max rejected x rest large small =
    noise-after_first bits input min max _
    ∙ ap (after_first bits input min max)
        (rand_int-to_int32 (pos 0) (pos 100) rejected x rest (omega arith) large small)
    ∙ ap (λ b. if b then replace bits input min max rest else ok input rest)
        (first_is_one (x % 101) (mod-lt x (omega arith)))
