-- ===== src/Json.antt =====
-- JSON documents as rapidjson hands them out. A number is the float that reading it gives. A
-- member is looked up in an object by its first occurrence. A value of another kind has none here; in
-- rapidjson that lookup is undefined, which `ScoreAdsCallback` tests for as a whole.
use bas_dev.Common.{Bool, true, false, String, Option, none, some, ◌==◌, string_eq, if◌then◌else◌}

mutual
  pub data Json (W : Type 0) : Type 0 where
    null : Json W
    bool : Bool → Json W
    number : W → Json W
    string : String → Json W
    array : Items W → Json W
    object : Members W → Json W

  pub data Items (W : Type 0) : Type 0 where
    nil : Items W
    cons : Json W → Items W → Items W

  pub data Members (W : Type 0) : Type 0 where
    end : Members W
    member : String → Json W → Members W → Members W

abbrev pub find_in : {W : Type 0} → String → Members W → Option (Json W)
find_in key end = none
find_in key (member name value members) = if name == key then some value else find_in key members

abbrev pub find_member : {W : Type 0} → String → Json W → Option (Json W)
find_member key (object members) = find_in key members
find_member key _ = none

abbrev pub is_object : {W : Type 0} → Json W → Bool
is_object (object members) = true
is_object _ = false
