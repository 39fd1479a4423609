-- ===== src/Method.antt =====
-- src/server/method.c: `struct private` of a method, and its constructors and accessors; the
-- constants of src/method/method.h.
--
-- `source` is the address of a client, NULL in a method that the server makes. The printed texts
-- that the C code keeps for freeing are left out. Allocations succeed.
pub mod Laws
use mbus.Base.{ℕ, Bool, true, false, Option, none, some, List, String, if◌then◌else◌}
use mbus.Base.Int.{ℤ, pos, negsuc, minus_one, is_neg, eq_int}
use mbus.Json.{CJson, codes, get_object, get_string_value, get_int_value}

abbrev pub type_command : String
type_command = "org.mbus.method.type.command"

abbrev pub type_event : String
type_event = "org.mbus.method.type.event"

abbrev pub type_result : String
type_result = "org.mbus.method.type.result"

abbrev pub sequence_start : ℕ
sequence_start = 1

abbrev pub sequence_end : ℕ
sequence_end = 9999

abbrev pub event_source_all : String
event_source_all = "org.mbus.method.event.source.all"

abbrev pub event_destination_all : String
event_destination_all = "org.mbus.method.event.destination.all"

abbrev pub event_destination_subscribers : String
event_destination_subscribers = "org.mbus.method.event.destination.subscribers"

abbrev pub event_identifier_all : String
event_identifier_all = "org.mbus.method.event.identifier.all"

abbrev pub tag_type : String
tag_type = "org.mbus.method.tag.type"

abbrev pub tag_source : String
tag_source = "org.mbus.method.tag.source"

abbrev pub tag_destination : String
tag_destination = "org.mbus.method.tag.destination"

abbrev pub tag_identifier : String
tag_identifier = "org.mbus.method.tag.identifier"

abbrev pub tag_sequence : String
tag_sequence = "org.mbus.method.tag.sequence"

abbrev pub tag_payload : String
tag_payload = "org.mbus.method.tag.payload"

abbrev pub tag_status : String
tag_status = "org.mbus.method.tag.status"

pub record Method (J : Type 0) : Type 0 where
  pub request : J
  pub result : Option J
  pub source : Option ℕ

module _ {J : Type 0} (cj : CJson J) where
  open cj use {
    parse, print_unformatted, create_object, create_string, create_number, add_item_to_object,
    delete_item_from_object, duplicate,
  }

  unfoldable pub request_type : Method J → Option String
  request_type m = get_string_value cj (some m.request) tag_type none

  unfoldable pub request_destination : Method J → Option String
  request_destination m = get_string_value cj (some m.request) tag_destination none

  unfoldable pub request_identifier : Method J → Option String
  request_identifier m = get_string_value cj (some m.request) tag_identifier none

  unfoldable pub request_sequence : Method J → ℤ
  request_sequence m = get_int_value cj (some m.request) tag_sequence minus_one

  unfoldable pub request_payload : Method J → Option J
  request_payload m = get_object cj (some m.request) (codes tag_payload)

  unfoldable pub request_string : Method J → Option (List ℕ)
  request_string m = print_unformatted m.request

  -- A response has no result object; no code is set on one.
  unfoldable pub set_result_code : Method J → ℤ → Method J
  set_result_code m code = record m {
    result = elim m.result [
      | none ↦ none
      | some r ↦ some (add_item_to_object r tag_status (create_number code))
    ];
  }

  -- A NULL payload deletes the member and adds none.
  unfoldable pub replace_payload : J → Option J → J
  replace_payload r none = delete_item_from_object r tag_payload
  replace_payload r (some p) =
      add_item_to_object (delete_item_from_object r tag_payload) tag_payload p

  unfoldable pub set_result_payload : Method J → Option J → Method J
  unfolding replace_payload
  set_result_payload m payload = record m {
    result = elim m.result [ none ↦ none | some r ↦ some (replace_payload r payload) ];
  }

  unfoldable pub result_string : Method J → Option (List ℕ)
  result_string m = elim m.result [ none ↦ none | some r ↦ print_unformatted r ]

  abbrev is_null {ℓ} : {A : Type ℓ} → Option A → Bool
  is_null none = true
  is_null (some a) = false

  empty_result : J → J
  empty_result json =
      add_item_to_object
        (add_item_to_object (add_item_to_object create_object tag_type (create_string type_result))
          tag_sequence (create_number (get_int_value cj (some json) tag_sequence minus_one)))
        tag_payload create_object

  -- The tests that a parsed request has to pass.
  unfoldable pub accepts : J → Bool
  accepts json =
      if is_null (get_string_value cj (some json) tag_type none)
      then false
      else if is_null (get_string_value cj (some json) tag_destination none)
      then false
      else if is_null (get_string_value cj (some json) tag_identifier none)
      then false
      else if eq_int (get_int_value cj (some json) tag_sequence minus_one) minus_one
      then false
      else if is_null (get_object cj (some json) (codes tag_payload))
      then false
      else true

  unfoldable pub create_request : ℕ → List ℕ → Option (Method J)
  unfolding accepts empty_result
  create_request source string = elim (parse string) [
    | none ↦ none
    | some json ↦
        if accepts json
        then some
            (record { request = json; result = some (empty_result json); source = some source })
        else none
  ]

  unfoldable pub response : String → String → String → ℤ → Option J → J
  response type source identifier sequence payload =
      add_item_to_object
        (add_item_to_object
          (add_item_to_object
            (add_item_to_object (add_item_to_object create_object tag_type (create_string type))
              tag_source (create_string source))
            tag_identifier (create_string identifier))
          tag_sequence (create_number sequence))
        tag_payload (elim payload [ none ↦ create_object | some p ↦ duplicate p ])

  -- The type is always a constant; the source and the identifier may be NULL.
  unfoldable pub create_response :
      String → Option String → Option String → ℤ → Option J → Option (Method J)
  unfolding response
  create_response type none identifier sequence payload = none
  create_response type (some source) none sequence payload = none
  create_response type (some source) (some identifier) sequence payload =
      if is_neg sequence
      then none
      else some (record {
        request = response type source identifier sequence payload;
        result = none;
        source = none;
      })
