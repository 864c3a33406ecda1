-- ===== src/Errors/Reports.antt =====
-- What a report adds to an error accumulator, and what it leaves alone.
use Prim.Native.Nat.{Ordering}
use Prim.Native.String.{compare}
use text.Mathlib.TextEquality.{path_by_compare}
use text.Mathlib.TextPositions.{compare_refl}
use bas_dev.Common.{
  ◌≡◌, ◌≢◌, ◌⊎◌, refl, sym, ap, Bool, true, false, ◌&&◌, ◌||◌, String, List, [], ◌∷◌, Option, none,
  some, Eq, ◌==◌, string_eq, if◌then◌else◌, arith, lookup,
}
use bas_dev.Errors.{
  ErrorVisibility, ErrorCode, client_side, server_side, Messages, ErrorMap, ErrorAccumulator,
  emplace_message, at_key, report_error, get_errors, has_errors, get_accumulated_error_string,
  visibility_eq, code_eq, visibility_beq_iff, code_beq_iff,
}

abbrev pub elem : String → Messages → Bool
elem x [] = false
elem x (m ∷ ms) = m == x || elem x ms

abbrev or_empty {ℓ} : {A : Type ℓ} → Option (List A) → List A
or_empty none = []
or_empty (some xs) = xs

-- The messages kept under a visibility and a code.
pub messages : ErrorAccumulator → ErrorVisibility → ErrorCode → Messages
messages errors v c = or_empty (lookup c (get_errors errors v))

-- Whether a message was reported with the given visibility and code.
pub reported : ErrorAccumulator → ErrorVisibility → ErrorCode → String → Bool
unfolding messages
reported errors v c msg = elem msg (messages errors v c)

pub reported-empty :
    (v : ErrorVisibility) (c : ErrorCode) (msg : String) → reported [] v c msg ≡ false
unfolding reported get_errors lookup
reported-empty v c msg = refl

elem-emplace_message :
    (x msg : String) (ms : Messages) → elem x (emplace_message msg ms) ≡ (msg == x || elem x ms)
unfolding emplace_message
elem-emplace_message x msg [] = refl
elem-emplace_message x msg (m ∷ ms) = step (elem-emplace_message x msg ms) (compare msg m) refl
  where
    step :
        elem x (emplace_message msg ms) ≡ (msg == x || elem x ms)
        → (o : Ordering) → compare msg m ≡ o
        → elem x (emplace_message msg (m ∷ ms)) ≡ (msg == x || elem x (m ∷ ms))
    step ih Ordering.lt e = rw (e, emplace_message)
    step ih Ordering.eq e =
        let same : m == x ≡ msg == x = ap (λ t. t == x) (sym (path_by_compare msg m e)) in
        rw (e, emplace_message) (ground (arith, same))
    step ih Ordering.gt e = rw (e, emplace_message) (ground (arith, ih))

emplace_message_twice :
    (msg : String) (ms : Messages)
    → emplace_message msg (emplace_message msg ms) ≡ emplace_message msg ms
unfolding emplace_message
emplace_message_twice msg [] = rw (compare_refl msg, emplace_message)
emplace_message_twice msg (m ∷ ms) = step (emplace_message_twice msg ms) (compare msg m) refl
  where
    step :
        emplace_message msg (emplace_message msg ms) ≡ emplace_message msg ms
        → (o : Ordering) → compare msg m ≡ o
        → emplace_message msg (emplace_message msg (m ∷ ms)) ≡ emplace_message msg (m ∷ ms)
    step ih Ordering.lt e = rw (e, compare_refl msg, emplace_message)
    step ih Ordering.eq e = rw (e, e, emplace_message)
    step ih Ordering.gt e = rw (e, e, emplace_message) (ap (◌∷◌ m) ih)

abbrev or_default {ℓ} : {V : Type ℓ} → V → Option V → V
or_default empty none = empty
or_default empty (some v) = v

module _ {K : Type 0} ⦃e : Eq K⦄ {V : Type 0} (empty : V) (f : V → V) where
  lookup-at_key :
      (k j : K) (m : List (K × V))
      → lookup k (at_key j empty f m)
        ≡ (if j == k then some (f (or_default empty (lookup k m))) else lookup k m)
  unfolding lookup at_key
  lookup-at_key k j [] = refl
  lookup-at_key k j ((i, v) ∷ m) =
      ground
        (arith, e.is_equal_iff j k, e.is_equal_iff i k, e.is_equal_iff i j, lookup-at_key k j m)

  at_key_twice :
      (j : K) (m : List (K × V))
      → ((v : V) → f (f v) ≡ f v)
      → at_key j empty f (at_key j empty f m) ≡ at_key j empty f m
  unfolding at_key
  at_key_twice j [] idem = rw ((e.is_equal_iff j j).1 refl, idem empty)
  at_key_twice j ((i, v) ∷ m) idem = ground (arith, idem v, at_key_twice j m idem)

has_errors-at_key :
    (errors : ErrorAccumulator) (v : ErrorVisibility) (f : ErrorMap → ErrorMap)
    → has_errors (at_key v [] f errors) ≡ true
unfolding has_errors at_key
has_errors-at_key [] v f = refl
has_errors-at_key ((w, m) ∷ errors) v f = ground arith

module _ (errors : ErrorAccumulator) (v : ErrorVisibility) (msg : String) (c : ErrorCode) where
  pub get_errors-report_error :
      (w : ErrorVisibility)
      → get_errors (report_error v msg c errors) w ≡ (
          if v == w
          then at_key c [] (emplace_message msg) (get_errors errors w)
          else get_errors errors w)
  unfolding get_errors report_error
  get_errors-report_error w =
      ground (arith, lookup-at_key [] (at_key c [] (emplace_message msg)) w v errors)

  messages-report_error :
      (w : ErrorVisibility) (d : ErrorCode)
      → messages (report_error v msg c errors) w d ≡ (
          if v == w && c == d
          then emplace_message msg (messages errors w d)
          else messages errors w d)
  unfolding messages
  messages-report_error w d = ground (
    arith,
    get_errors-report_error w,
    lookup-at_key [] (emplace_message msg) d c (get_errors errors w),
  )

  -- After a report exactly the messages reported before and the new one are found, the new one
  -- under its visibility and its code alone.
  pub reported-report_error :
      (w : ErrorVisibility) (d : ErrorCode) (x : String)
      → reported (report_error v msg c errors) w d x
        ≡ ((v == w && c == d && msg == x) || reported errors w d x)
  unfolding reported
  reported-report_error w d x =
      ground (arith, messages-report_error w d, elem-emplace_message x msg (messages errors w d))

  has_errors-report_error : has_errors (report_error v msg c errors) ≡ true
  unfolding has_errors report_error
  has_errors-report_error = has_errors-at_key errors v _

  client_errors-report_error :
      (w : ErrorVisibility)
      → (v ≢ w) ⊎ (c ≡ server_side)
      → lookup client_side (get_errors (report_error v msg c errors) w)
        ≡ lookup client_side (get_errors errors w)
  client_errors-report_error w h = ground (
    arith,
    get_errors-report_error w,
    visibility_beq_iff v w,
    code_beq_iff c client_side,
    lookup-at_key [] (emplace_message msg) client_side c (get_errors errors w),
  )

  -- A report for other readers than those of a visibility, or of an error that is not on the side
  -- of the client, leaves the string of the errors for that visibility as it was.
  string-report_error :
      (w : ErrorVisibility)
      → (v ≢ w) ⊎ (c ≡ server_side)
      → get_accumulated_error_string (report_error v msg c errors) w
        ≡ get_accumulated_error_string errors w
  unfolding get_accumulated_error_string
  string-report_error w h = rw (client_errors-report_error w h, get_accumulated_error_string)

  -- A report makes `HasErrors` true, and a second report of the same error changes nothing.
  report_error_effects :
      (has_errors (report_error v msg c errors) ≡ true)
      × (report_error v msg c (report_error v msg c errors) ≡ report_error v msg c errors)
  unfolding report_error
  report_error_effects = (
    has_errors-report_error,
    at_key_twice [] (at_key c [] (emplace_message msg)) v errors
        (λ m. at_key_twice [] (emplace_message msg) c m (emplace_message_twice msg)),
  )
