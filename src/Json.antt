-- ===== src/Json.antt =====
-- src/json/json.c: the reading of JSON values, over the library cJSON.
--
-- cJSON is the parameter `CJson`: the type of its values and the calls that the code makes. A call
-- that changes a value in C returns the new value here, which is enough since no value is shared.
-- Allocations succeed.
pub mod Path
use Prim.Native.Char.{code}
use mbus.Base.{
  ℕ, zero, suc, Bool, true, false, Option, none, some, List, [], ◌∷◌, String, length, ◌==◌,
  if◌then◌else◌,
}
use mbus.Base.Int.{ℤ}

pub record CJson (J : Type 0) : Type 0 where
  pub parse : List ℕ → Option J
  pub print_unformatted : J → Option (List ℕ)
  pub get_object_item : J → List ℕ → Option J
  pub value_string : J → Option String
  pub value_int : J → Option ℤ
  pub is_array : J → Bool
  pub get_array_size : J → ℕ
  pub get_array_item : J → ℕ → Option J
  pub create_object : J
  pub create_array : J
  pub create_string : String → J
  pub create_number : ℤ → J
  pub add_item_to_object : J → String → J → J
  pub add_item_to_array : J → J → J
  pub delete_item_from_object : J → String → J
  pub duplicate : J → J

-- The bytes of an ASCII text.
abbrev pub codes : String → List ℕ
codes String.[] = []
codes (String.◌∷◌ c s) = code c ∷ codes s

unfoldable pub skip_slashes : List ℕ → List ℕ
skip_slashes [] = []
skip_slashes (c ∷ s) = if c == b'/' then skip_slashes s else c ∷ s

-- The part before the first slash, and what follows that slash, if there is one.
unfoldable pub split_slash : List ℕ → List ℕ × Option (List ℕ)
split_slash [] = ([], none)
split_slash (c ∷ s) =
    let (front, back) = split_slash s in if c == b'/' then ([], some s) else (c ∷ front, back)

module _ {J : Type 0} (cj : CJson J) where
  open cj use {get_object_item, value_string, value_int, is_array, get_array_size, get_array_item}

  -- `if (strlen(ptr) != 0) child = GetObjectItem(object, ptr)`; the outer `none` is `goto bail`.
  unfoldable pub descend : Option J → Option J → List ℕ → Option (Option J)
  descend object child [] = some child
  descend none child (c ∷ s) = none
  descend (some o) child (c ∷ s) = elim (get_object_item o (c ∷ s)) [
    | none ↦ none
    | some item ↦ some (some item)
  ]

  -- The loop of mbus_json_get_object: each round takes a part and its slash off the path, so the
  -- length of the path is fuel enough.
  unfoldable pub walk : ℕ → Option J → Option J → List ℕ → Option J
  unfolding descend
  walk fuel object child [] = object
  walk zero object child (c ∷ s) = none
  walk (suc fuel) object child (c ∷ s) =
      let (part, rest) = split_slash (c ∷ s) in
      elim (descend object child part) [
        | none ↦ none
        | some next ↦ elim rest [ none ↦ next | some path ↦ walk fuel next next path ]
      ]

  unfoldable pub get_object : Option J → List ℕ → Option J
  get_object none path = none
  get_object (some root) path =
      let path' = skip_slashes path in walk (length path') (some root) none path'

  abbrev or_value {ℓ} : {A : Type ℓ} → Option A → Option A → Option A
  or_value none value = value
  or_value (some a) value = some a

  -- The value of a member, or the caller's default (`none` is NULL).
  unfoldable pub get_string_value : Option J → String → Option String → Option String
  get_string_value json name value = elim (get_object json (codes name)) [
    | none ↦ value
    | some item ↦ or_value (value_string item) value
  ]

  unfoldable pub get_int_value : Option J → String → ℤ → ℤ
  get_int_value json name value = elim (get_object json (codes name)) [
    | none ↦ value
    | some item ↦ elim (value_int item) [ none ↦ value | some n ↦ n ]
  ]

  -- mbus_json_get_value_string on every item of an array, none of anything else.
  array_strings_from : J → ℕ → ℕ → List (Option String)
  array_strings_from json at zero = []
  array_strings_from json at (suc left) =
      elim (get_array_item json at) [ none ↦ none | some item ↦ value_string item ]
      ∷ array_strings_from json (suc at) left

  unfoldable pub array_strings : Option J → List (Option String)
  unfolding array_strings_from
  array_strings none = []
  array_strings (some json) =
      if is_array json then array_strings_from json 0 (get_array_size json) else []
