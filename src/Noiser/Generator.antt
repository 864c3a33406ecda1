-- ===== src/Noiser/Generator.antt =====
-- `RandGenerator` and `RandInt`: which values are accepted, and what they give.
use native.Mathlib.Nat.{
  mod-lt, div-add-mod', mul-le-mul, mod-eq_of_lt, mul-add-mod_self_right, le-div_iff_mul-le,
  div-lt_iff_lt-mul, le_refl,
}
use bas_dev.Common.{
  true, ltb, ℕ, ◌+◌, ◌*◌, ◌/◌, ◌%◌, ◌^◌, ◌≤◌, ◌<◌, ◌≡◌, ◌↔◌, ap, refl, sym, ◌∙◌, List, [], ◌∷◌,
  ◌++◌, Option, none, some, map, arith, All,
}
use bas_dev.Common.Int.{
  ℤ, pos, pos_part, neg_part, ◌+ℤ◌, ◌-ℤ◌, ◌≤ℤ◌, ◌<ℤ◌, +ℤ_parts, -ℤ_parts, one_part-zero,
}
use bas_dev.Noiser.{
  Drawn, ok, internal_error, starved, u64_max, max_acceptable_value, rand_generator, to_int32,
  rand_int,
}

-- How often each result occurs among the accepted values.
abbrev pub rounds : ℕ → ℕ
rounds range = u64_max / range

rounds_pos : (range : ℕ) → 0 < range → range ≤ u64_max → 1 ≤ rounds range * range
rounds_pos range p h =
    let once : 1 ≤ rounds range = (le-div_iff_mul-le {x = 1} {y = u64_max} p).1 (omega arith) in
    grind arith

acceptable_iff :
    (range x : ℕ)
    → 0 < range
    → range ≤ u64_max
    → (x ≤ max_acceptable_value range) ↔ (x < rounds range * range)
unfolding max_acceptable_value
acceptable_iff range x p h =
    let some_value = rounds_pos range p h in (λ a. omega arith, λ b. omega arith)

-- The generator passes over the values above the largest acceptable one and returns the first
-- other value, reduced modulo the range.
pub rand_generator-append :
    (range : ℕ) (rejected : List ℕ) (x : ℕ) (rest : List (Option ℕ))
    → All (λ y. max_acceptable_value range < y) rejected
    → x ≤ max_acceptable_value range
    → rand_generator range (map some rejected ++ some x ∷ rest) ≡ ok (x % range) rest
unfolding rand_generator
rand_generator-append range [] x rest h k = ground arith
rand_generator-append range (y ∷ ys) x rest (p, h) k =
    ground (arith, rand_generator-append range ys x rest h k)

-- The accepted values are the numbers `k * range + v` with `k` below a count that is the same for
-- every result `v` below the range.
accepted_iff :
    (range v x : ℕ)
    → 0 < range
    → range ≤ u64_max
    → v < range
    → ((x ≤ max_acceptable_value range) × (x % range ≡ v))
      ↔ ((k : ℕ) × (k < rounds range) × (x ≡ k * range + v))
accepted_iff range v x p h lt = (to, from)
  where
    to :
        (x ≤ max_acceptable_value range) × (x % range ≡ v)
        → (k : ℕ) × (k < rounds range) × (x ≡ k * range + v)
    to (small, e) = (
      x / range,
      (div-lt_iff_lt-mul p).1 ((acceptable_iff range x p h).0 small),
      omega (arith, div-add-mod' x range),
    )

    from :
        (k : ℕ) × (k < rounds range) × (x ≡ k * range + v)
        → (x ≤ max_acceptable_value range) × (x % range ≡ v)
    from (k, few, e) = (
      (acceptable_iff range x p h).1 (omega (arith, mul-le-mul few (le_refl range))),
      rw e (mul-add-mod_self_right k range v ∙ mod-eq_of_lt lt),
    )

-- One value is enough for a result exactly when it is acceptable.
one_draw_iff :
    (range v x : ℕ)
    → (rand_generator range (some x ∷ []) ≡ ok v [])
      ↔ ((x ≤ max_acceptable_value range) × (x % range ≡ v))
unfolding rand_generator
one_draw_iff range v x = ground arith

-- After rejected values, the last value read gives the result `v` below the range exactly when it is
-- `k * range + v` for a `k` below a count that is the same for every `v`: all results are equally
-- likely. The rejected values are those from that count of whole ranges on.
pub rand_generator_uniform :
    (range v x : ℕ) (rejected : List ℕ)
    → 0 < range
    → range ≤ u64_max
    → v < range
    → All (λ y. rounds range * range ≤ y) rejected
    → (rand_generator range (map some rejected ++ some x ∷ []) ≡ ok v [])
      ↔ ((k : ℕ) × (k < rounds range) × (x ≡ k * range + v))
unfolding rand_generator
rand_generator_uniform range v x [] p h lt large =
    let drawn = one_draw_iff range v x in
    let accepted = accepted_iff range v x p h lt in
    (λ e. accepted.0 (drawn.0 e), λ k. drawn.1 (accepted.1 k))
rand_generator_uniform range v x (y ∷ ys) p h lt (large, later) =
    let passed : ltb (max_acceptable_value range) y ≡ true =
      ground (arith, acceptable_iff range y p h) in
    rw (rand_generator, passed) (rand_generator_uniform range v x ys p h lt later)

-- Every result is below the range.
pub rand_generator-lt :
    (range : ℕ) (draws : List (Option ℕ)) {x : ℕ} {rest : List (Option ℕ)}
    → 0 < range
    → rand_generator range draws ≡ ok x rest
    → x < range
unfolding rand_generator
rand_generator-lt range [] p e = cc
rand_generator-lt range (none ∷ draws) p e = cc
rand_generator-lt range (some y ∷ draws) {x} {rest} p e =
    ground (arith, rand_generator-lt range draws {x = x} {rest = rest} p, mod-lt y p)

to_int32_small : (n : ℕ) → n < 2 ^ 31 → to_int32 n ≡ pos n
unfolding to_int32
to_int32_small n h = ground arith

-- A range of `int`s that a 32-bit difference can hold.
abbrev pub IsIntRange : ℤ → ℤ → Type 0
IsIntRange min max =
    (min <ℤ max) × (pos_part max + neg_part min < pos_part min + neg_part max + 2 ^ 31)

abbrev pub range_of : ℤ → ℤ → ℕ
range_of min max = pos_part (max -ℤ min) + 1

-- What `RandInt` makes of a number of its generator.
abbrev shift : ℤ → Drawn ℕ → Drawn ℤ
shift min (ok n rest) = ok (to_int32 n +ℤ min) rest
shift min (internal_error rest) = internal_error rest
shift min starved = starved

rand_int-shift :
    (min max : ℤ) (draws : List (Option ℕ))
    → min <ℤ max
    → rand_int min max draws ≡ shift min (rand_generator (range_of min max) draws)
unfolding rand_int
rand_int-shift min max draws h = ground arith

pub rand_int-to_int32 :
    (min max : ℤ) (rejected : List ℕ) (x : ℕ) (rest : List (Option ℕ))
    → min <ℤ max
    → All (λ y. max_acceptable_value (range_of min max) < y) rejected
    → x ≤ max_acceptable_value (range_of min max)
    → rand_int min max (map some rejected ++ some x ∷ rest)
      ≡ ok (to_int32 (x % range_of min max) +ℤ min) rest
rand_int-to_int32 min max rejected x rest h large small =
    rand_int-shift min max _ h
    ∙ ap (shift min) (rand_generator-append (range_of min max) rejected x rest large small)

-- In a range of `int`s that a 32-bit difference can hold, after values that are too large, the first
-- acceptable value `x` gives the least number of the range plus the remainder of `x` by the size of
-- the range.
pub rand_int-append :
    (min max : ℤ) (rejected : List ℕ) (x : ℕ) (rest : List (Option ℕ))
    → IsIntRange min max
    → All (λ y. max_acceptable_value (range_of min max) < y) rejected
    → x ≤ max_acceptable_value (range_of min max)
    → rand_int min max (map some rejected ++ some x ∷ rest)
      ≡ ok (pos (x % range_of min max) +ℤ min) rest
rand_int-append min max rejected x rest (h, fits) large small =
    let parts = -ℤ_parts max min in
    let positive = one_part-zero (max -ℤ min) in
    let some_value : 0 < range_of min max = omega arith in
    let below : x % range_of min max < 2 ^ 31 = omega (arith, mod-lt x some_value) in
    rand_int-to_int32 min max rejected x rest h large small
    ∙ ap (λ n. ok (n +ℤ min) rest) (to_int32_small (x % range_of min max) below)

shift_bounds :
    (min max : ℤ) (d : Drawn ℕ) {v : ℤ} {rest : List (Option ℕ)}
    → IsIntRange min max
    → ((n : ℕ) (later : List (Option ℕ)) → d ≡ ok n later → n < range_of min max)
    → shift min d ≡ ok v rest
    → (min ≤ℤ v) × (v ≤ℤ max)
shift_bounds min max (ok n later) {v} (h, small) below e =
    let in_range : n < range_of min max = below n later refl in
    let parts = -ℤ_parts max min in
    let positive = one_part-zero (max -ℤ min) in
    let fits : n < 2 ^ 31 = omega arith in
    let value : pos n +ℤ min ≡ v = ground (arith, to_int32_small n fits) in
    let sum = +ℤ_parts (pos n) min in rw (← value) (omega arith)
shift_bounds min max (internal_error later) h below e = cc
shift_bounds min max starved h below e = cc

-- Whatever the values read, a number that `RandInt` returns lies between its two arguments, both
-- included.
pub rand_int_bounds :
    (min max : ℤ) (draws : List (Option ℕ)) {v : ℤ} {rest : List (Option ℕ)}
    → IsIntRange min max
    → rand_int min max draws ≡ ok v rest
    → (min ≤ℤ v) × (v ≤ℤ max)
rand_int_bounds min max draws h e =
    shift_bounds min max (rand_generator (range_of min max) draws) h
      (λ n later. rand_generator-lt (range_of min max) draws (omega arith))
      (sym (rand_int-shift min max draws h.0) ∙ e)
