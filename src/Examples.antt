-- ===== src/Examples.antt =====
-- Runs of the theorems on small data: a seller's auction of two ads with whole-number bids, requests,
-- results, trackers, reports and random values.
mod Services
mod Auction
mod SelectAd
mod GetBids
use bas_dev.Common.{
  ◌-◌, ℕ, ◌+◌, ◌%◌, ◌≡◌, ◌≢◌, ◌↔◌, ◌⊎◌, inl, inr, refl, Bool, true, false, ◌&&◌, ◌||◌, String, List,
  [], ◌∷◌, ◌++◌, Option, none, some, ◌==◌, string_eq, nat_eq, length, All, arith, leb, ltb, nat_beq,
}
use bas_dev.Common.Int.{ℤ, pos, negsuc}
use bas_dev.Common.Float.{Float, IsOrdered, IsNumber}

-- Whole numbers in place of floats.
instance abbrev pub nat_float : Float ℕ
nat_float = record {
  nought = 0;
  currency_epsilon = 0;
  le = leb;
  gt = λ a b. ltb b a;
  eq = nat_beq;
  minus = λ a b. a - b;
  fabsf = λ a. a;
  to_int = pos;
}

instance abbrev pub nat_IsOrdered : IsOrdered ℕ
nat_IsOrdered = record {
  nought-IsNumber = refl;
  le_trans = λ x y z h k. ground arith;
  le_total = λ x y h k. ground arith;
  gt-eq-not_le = λ x y h k. ground arith;
  eq-eq-le_both = λ x y. ground arith;
  to_int_mono = λ x y h. ground arith;
}
