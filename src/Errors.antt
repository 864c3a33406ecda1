-- ===== src/Errors.antt =====
-- services/common/util/error_accumulator.{h,cc}: errors by visibility and code, each message once.
-- The nested maps and sets are sorted or hashed containers of the standard library and of Abseil:
-- here they are association lists and lists without repetitions. Logging is left out.
pub mod Reports
use Prim.Native.Nat.{Ordering}
use Prim.Native.String
use Prim.Native.String.{compare}
use bas_dev.Common.{
  ◌≡◌, Bool, true, false, ◌&&◌, ◌||◌, String, List, [], ◌∷◌, Option, none, some, Eq, ◌==◌,
  string_eq, if◌then◌else◌, ◌↔◌, arith, lookup,
}

pub data ErrorVisibility : Type 0 where
  client_visible ad_server_visible : ErrorVisibility

pub data ErrorCode : Type 0 where
  client_side server_side : ErrorCode

abbrev pub visibility_beq : ErrorVisibility → ErrorVisibility → Bool
visibility_beq client_visible client_visible = true
visibility_beq ad_server_visible ad_server_visible = true
visibility_beq _ _ = false

pub visibility_beq_iff : (a b : ErrorVisibility) → (visibility_beq a b ≡ true) ↔ (a ≡ b)
visibility_beq_iff a b = ground arith

abbrev pub code_beq : ErrorCode → ErrorCode → Bool
code_beq client_side client_side = true
code_beq server_side server_side = true
code_beq _ _ = false

pub code_beq_iff : (a b : ErrorCode) → (code_beq a b ≡ true) ↔ (a ≡ b)
code_beq_iff a b = ground arith

instance abbrev pub visibility_eq : Eq ErrorVisibility
visibility_eq = record { is_equal = visibility_beq; is_equal_iff = visibility_beq_iff }

instance abbrev pub code_eq : Eq ErrorCode
code_eq = record { is_equal = code_beq; is_equal_iff = code_beq_iff }

-- `std::set<std::string>`, in the order of `std::string`.
abbrev pub Messages : Type 0
Messages = List String

abbrev pub ErrorMap : Type 0
ErrorMap = List (ErrorCode × Messages)

-- `dst_error_map_`.
abbrev pub ErrorAccumulator : Type 0
ErrorAccumulator = List (ErrorVisibility × ErrorMap)

unfoldable pub emplace_message : String → Messages → Messages
emplace_message msg [] = msg ∷ []
emplace_message msg (m ∷ ms) = elim (compare msg m) [
  | Ordering.lt ↦ msg ∷ m ∷ ms
  | Ordering.eq ↦ m ∷ ms
  | Ordering.gt ↦ m ∷ emplace_message msg ms
]

-- `map[key]` as the place of an update: a missing entry starts empty.
module _ {K : Type 0} ⦃e : Eq K⦄ {V : Type 0} where
  unfoldable pub at_key : K → V → (V → V) → List (K × V) → List (K × V)
  at_key k empty f [] = (k, f empty) ∷ []
  at_key k empty f ((j, v) ∷ m) = if j == k then (j, f v) ∷ m else (j, v) ∷ at_key k empty f m

unfoldable pub report_error :
    ErrorVisibility → String → ErrorCode → ErrorAccumulator → ErrorAccumulator
report_error error_visibility msg error_code =
    at_key error_visibility [] (at_key error_code [] (emplace_message msg))

unfoldable pub get_errors : ErrorAccumulator → ErrorVisibility → ErrorMap
get_errors dst_error_map error_visibility = elim (lookup error_visibility dst_error_map) [
  | none ↦ []
  | some errors ↦ errors
]

unfoldable pub has_errors : ErrorAccumulator → Bool
has_errors [] = false
has_errors (_ ∷ _) = true

abbrev pub error_delimiter : String
error_delimiter = "; "

-- `absl::StrJoin`.
unfoldable pub str_join : Messages → String → String
str_join [] delimiter = ""
str_join (m ∷ []) delimiter = m
str_join (m ∷ n ∷ ms) delimiter =
    String.◌++◌ m (String.◌++◌ delimiter (str_join (n ∷ ms) delimiter))

unfoldable pub get_accumulated_error_string : ErrorAccumulator → ErrorVisibility → String
get_accumulated_error_string errors error_visibility =
    elim (lookup client_side (get_errors errors error_visibility)) [
      | none ↦ ""
      | some messages ↦ str_join messages error_delimiter
    ]
