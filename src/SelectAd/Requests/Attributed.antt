-- ===== src/SelectAd/Requests/Attributed.antt =====
-- A list built in stretches, one for each entry of a map, and what one key contributes to it.
use bas_dev.Common.{
  subst, filter, filter-append, IsMap, contains, ◌≡◌, refl, sym, ap, ◌∙◌, false, String, List, [],
  ◌∷◌, ◌++◌, none, some, map, ◌==◌, string_eq, string_eq_iff, lookup, if◌then◌else◌, arith,
  Bool-cases, inl, inr, append-nil,
}

module _ {V A B : Type 0} (parts : V → List A) (build : String → A → B) (owner : B → String) where
  -- The stretches of the entries, one after the other.
  abbrev pub stretches : List (String × V) → List B
  stretches [] = []
  stretches ((key, v) ∷ later) = map (build key) (parts v) ++ stretches later

  abbrev pub parts_at : String → List (String × V) → List A
  parts_at key m = elim (lookup key m) [ none ↦ [] | some v ↦ parts v ]

  module _ (owned : (key : String) (a : A) → owner (build key a) ≡ key) where
    -- One stretch is kept whole or dropped whole.
    filter-stretch :
        (key other : String) (xs : List A)
        → filter (λ b. owner b == key) (map (build other) xs)
          ≡ (if other == key then map (build other) xs else [])
    filter-stretch key other [] = ground arith
    filter-stretch key other (a ∷ xs) = elim (Bool-cases (other == key)) [
      | inl e ↦
          let kept =
            filter-stretch key other xs ∙ ap (λ c. if c then map (build other) xs else []) e in
          rw (owned other a, e) (ap (build other a ∷◌) kept)
      | inr e ↦
          let dropped =
            filter-stretch key other xs ∙ ap (λ c. if c then map (build other) xs else []) e in
          rw (owned other a, e) dropped
    ]

    parts_at-absent :
        (key : String) (m : List (String × V)) → contains key m ≡ false → parts_at key m ≡ []
    parts_at-absent key m h = ground (arith, h)

    -- What a key owns among the stretches is what its own entry gave.
    pub filter-stretches :
        (key : String) (m : List (String × V))
        → IsMap m
        → filter (λ b. owner b == key) (stretches m) ≡ map (build key) (parts_at key m)
    unfolding lookup
    filter-stretches key [] h = refl
    filter-stretches key ((k, v) ∷ m) (h, hs) =
        filter-append (λ b. owner b == key) (map (build k) (parts v)) (stretches m)
        ∙ elim (Bool-cases (k == key)) [
          | inl e ↦
              let same : k ≡ key = (string_eq_iff k key).0 e in
              let absent : contains key m ≡ false = subst (λ j. contains j m ≡ false) same h in
              let rest =
                filter-stretches key m hs ∙ ap (map (build key)) (parts_at-absent key m absent) in
              let here : parts_at key ((k, v) ∷ m) ≡ parts v = rw (parts_at, lookup, e) in
              rw (filter-stretch key k (parts v), e, rest)
                (append-nil (map (build k) (parts v))
                  ∙ ap (λ j. map (build j) (parts v)) same
                  ∙ ap (map (build key)) (sym here))
          | inr e ↦
              let there : parts_at key ((k, v) ∷ m) ≡ parts_at key m = rw (parts_at, lookup, e) in
              rw (filter-stretch key k (parts v), e)
                (filter-stretches key m hs ∙ ap (map (build key)) (sym there))
        ]
