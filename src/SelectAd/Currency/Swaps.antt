-- ===== src/SelectAd/Currency/Swaps.antt =====
-- Swapping and deleting the elements of a list that stands for a repeated field.
use mathlib.Core.List.{Perm}
use mathlib.Core.List.Perm
use bas_dev.SelectAd.Currency.{take, drop, set, swap_elements, delete_subrange}
use bas_dev.Common.{
  ℕ, suc, ◌+◌, ◌-◌, ◌≡◌, ◌⊎◌, inl, inr, refl, sym, ap, ◌∙◌, subst, true, false, List, [], ◌∷◌, ◌++◌,
  some, ltb, length, get_elem?, if◌then◌else◌, arith, append-nil, append_assoc, length-append,
}

module _ {ℓ} {T : Type ℓ} where
  -- A list that is not empty, from its end.
  pub last_of :
      (xs : List T) → (xs ≡ []) ⊎ ((front : List T) × (last : T) × (xs ≡ front ++ (last ∷ [])))
  last_of [] = inl refl
  last_of (x ∷ xs) = elim (last_of xs) [
    | inl e ↦ inr ([], x, ap (x ∷◌) e)
    | inr (front, last, e) ↦ inr (x ∷ front, last, ap (x ∷◌) e)
  ]

  pub last-first : (xs : List T) (y : T) → Perm (xs ++ (y ∷ [])) (y ∷ xs)
  last-first [] y = Perm.refl (y ∷ [])
  last-first (x ∷ xs) y = Perm.trans (Perm.cons x (last-first xs y)) (Perm.swap y x xs)

  pub get-middle :
      (xs : List T) (y : T) (ys : List T) → get_elem? (xs ++ y ∷ ys) (length xs) ≡ some y
  get-middle [] y ys = refl
  get-middle (x ∷ xs) y ys = get-middle xs y ys

  set-middle :
      (xs : List T) (y z : T) (ys : List T) → set (length xs) z (xs ++ y ∷ ys) ≡ xs ++ z ∷ ys
  set-middle [] y z ys = refl
  set-middle (x ∷ xs) y z ys = ap (x ∷◌) (set-middle xs y z ys)

  take-length : (xs ys : List T) → take (length xs) (xs ++ ys) ≡ xs
  take-length [] ys = refl
  take-length (x ∷ xs) ys = ap (x ∷◌) (take-length xs ys)

  drop-length : (xs ys : List T) → drop (length xs) (xs ++ ys) ≡ ys
  drop-length [] ys = refl
  drop-length (x ∷ xs) ys = drop-length xs ys

  drop_all : (xs : List T) → drop (length xs) xs ≡ []
  drop_all [] = refl
  drop_all (x ∷ xs) = drop_all xs

  -- The place after two more stretches.
  get-second :
      (done front : List T) (x y : T) (bad : List T) (j : ℕ)
      → suc (length done + length front) ≡ j
      → get_elem? (done ++ (x ∷ (front ++ (y ∷ bad)))) j ≡ some y
  get-second done front x y bad j e =
      let place : length (done ++ x ∷ front) ≡ j = omega (arith, length-append done (x ∷ front)) in
      subst (λ n. get_elem? (done ++ (x ∷ (front ++ (y ∷ bad)))) n ≡ some y) place
        (subst (λ l. get_elem? l (length (done ++ (x ∷ front))) ≡ some y)
          (append_assoc done (x ∷ front) (y ∷ bad)) (get-middle (done ++ (x ∷ front)) y bad))

  set-second :
      (done front : List T) (x y z : T) (bad : List T) (j : ℕ)
      → suc (length done + length front) ≡ j
      → set j z (done ++ (x ∷ (front ++ (y ∷ bad)))) ≡ done ++ (x ∷ (front ++ (z ∷ bad)))
  set-second done front x y z bad j e =
      let place : length (done ++ x ∷ front) ≡ j = omega (arith, length-append done (x ∷ front)) in
      subst (λ n. set n z (done ++ (x ∷ (front ++ (y ∷ bad)))) ≡ done ++ (x ∷ (front ++ (z ∷ bad))))
        place
        (ap (set (length (done ++ x ∷ front)) z) (sym (append_assoc done (x ∷ front) (y ∷ bad)))
          ∙ set-middle (done ++ x ∷ front) y z bad
          ∙ append_assoc done (x ∷ front) (z ∷ bad))

  pub swap-ends :
      (done front : List T) (x y : T) (bad : List T) (j : ℕ)
      → suc (length done + length front) ≡ j
      → swap_elements (length done) j (done ++ (x ∷ (front ++ (y ∷ bad))))
        ≡ done ++ (y ∷ (front ++ (x ∷ bad)))
  unfolding swap_elements
  swap-ends done front x y bad j e =
      rw
        (
          swap_elements,
          get-middle done x (front ++ y ∷ bad),
          get-second done front x y bad j e,
          set-middle done x y (front ++ y ∷ bad),
        )
        (set-second done front y y x bad j e)

  pub swap-same :
      (done : List T) (x : T) (bad : List T)
      → swap_elements (length done) (length done) (done ++ (x ∷ bad)) ≡ done ++ (x ∷ bad)
  unfolding swap_elements
  swap-same done x bad =
      rw (swap_elements, get-middle done x bad, get-middle done x bad, set-middle done x x bad)
        (set-middle done x x bad)

  -- Deleting from the end of the kept ones on.
  pub delete-rest :
      (kept gone : List T) (n : ℕ)
      → length (kept ++ gone) ≡ n
      → (if ltb (length kept) n
          then some (delete_subrange (length kept) (n - length kept) (kept ++ gone))
          else some (kept ++ gone))
        ≡ some kept
  delete-rest kept [] n e =
      let test : ltb (length kept) n ≡ false = ground (arith, length-append kept []) in
      rw test (ap some (append-nil kept))
  delete-rest kept (g ∷ gone) n e =
      let test : ltb (length kept) n ≡ true = ground (arith, length-append kept (g ∷ gone)) in
      let rest : n - length kept ≡ length (g ∷ gone) =
        omega (arith, length-append kept (g ∷ gone)) in
      rw (
        test,
        rest,
        take-length kept (g ∷ gone),
        drop-length kept (g ∷ gone),
        drop_all gone,
        append-nil kept,
      )
