-- ===== src/ClientLib/Requests.antt =====
-- `struct request` of src/client/client.c: its constructor and accessors, the sequence numbers, and
-- the comparison of texts that may be NULL.
use mbus.Base.{
  ℕ, ◌+◌, Bool, true, false, ◌||◌, Option, none, some, [], ◌∷◌, ◌++◌, String, str_eq, ltb, leb,
  if◌then◌else◌, Exec, fault,
}
use mbus.Base.Int.{ℤ, pos, minus_one, is_neg, is_le_zero}
use mbus.Json.{codes, get_object, get_string_value, get_int_value}
use mbus.Method.{
  sequence_start, sequence_end, type_command, tag_type, tag_destination, tag_identifier,
  tag_sequence, tag_payload,
}
use mbus.ClientLib.{
  Request, Runtime, MbusClient, Notice, Callback, Context, ClientState, connecting, connected,
  disconnected, ClientOptions,
}

abbrev pub tag_timeout : String
tag_timeout = "org.mbus.method.tag.timeout"

-- `strcmp(a, b) == 0` in front of two runs; strcmp of NULL is a fault.
unfoldable pub strcmp_case {ℓ} : {A : Type ℓ} → Option String → String → Exec A → Exec A → Exec A
strcmp_case none t same other = fault
strcmp_case (some s) t same other = if str_eq s t then same else other

-- `client->sequence += 1`, back to the start at the end.
unfoldable pub advance_sequence : ℕ → ℕ
advance_sequence n = if leb sequence_end (n + 1) then sequence_start else n + 1

-- `timeout <= 0` stands for the default.
unfoldable pub or_default : ℤ → ℤ → ℤ
or_default timeout default = if is_le_zero timeout then default else timeout

abbrev pub is_connected : ClientState → Bool
is_connected connected = true
is_connected _ = false

abbrev pub is_connecting : ClientState → Bool
is_connecting connecting = true
is_connecting _ = false

-- The state after a connection is lost or refused.
unfoldable pub retry_state : ClientOptions → ClientState
retry_state options = if is_le_zero options.connect_interval then disconnected else connecting

module _ {J : Type 0} where
  unfoldable pub note : MbusClient J → Notice J → MbusClient J
  note c n = record c { notices = c.notices ++ (n ∷ []) }

  -- A request goes to the tail of the queue and its sequence number is taken.
  unfoldable pub queue_request : MbusClient J → Request J → MbusClient J
  unfolding advance_sequence
  queue_request c r = record c {
    sequence = advance_sequence c.sequence;
    requests = c.requests ++ (r ∷ []);
  }

module _ {J : Type 0} (rt : Runtime J) where
  open rt use {cj, now}

  unfoldable pub request_get_sequence : Request J → ℤ
  request_get_sequence r = get_int_value cj (some r.json) tag_sequence minus_one

  unfoldable pub request_get_type : Request J → Option String
  request_get_type r = get_string_value cj (some r.json) tag_type none

  unfoldable pub request_get_destination : Request J → Option String
  request_get_destination r = get_string_value cj (some r.json) tag_destination none

  unfoldable pub request_get_identifier : Request J → Option String
  request_get_identifier r = get_string_value cj (some r.json) tag_identifier none

  unfoldable pub request_get_payload : Request J → Option J
  request_get_payload r = get_object cj (some r.json) (codes tag_payload)

  -- The object of a request: a command has its timeout in it, a NULL payload is an empty object.
  unfoldable pub request_json : String → String → String → ℕ → Option J → ℤ → J
  request_json type destination identifier sequence payload timeout =
      let head =
        cj.add_item_to_object
          (cj.add_item_to_object
            (cj.add_item_to_object
              (cj.add_item_to_object cj.create_object tag_type (cj.create_string type))
              tag_destination (cj.create_string destination))
            tag_identifier (cj.create_string identifier))
          tag_sequence (cj.create_number (pos sequence)) in
      let timed =
        if str_eq type type_command
        then cj.add_item_to_object head tag_timeout (cj.create_number timeout)
        else head in
      cj.add_item_to_object timed tag_payload
        (elim payload [ none ↦ cj.create_object | some p ↦ cj.duplicate p ])

  unfoldable pub request_create :
      String → String → String → ℕ → Option J → Callback → Context → ℤ → Option (Request J)
  unfolding request_json
  request_create type destination identifier sequence payload callback context timeout =
      if ltb sequence sequence_start || leb sequence_end sequence
      then none
      else if is_neg timeout
      then none
      else let json = request_json type destination identifier sequence payload timeout in
        elim (cj.print_unformatted json) [
          | none ↦ none
          | some string ↦ some (record {
            string = string;
            json = json;
            callback = callback;
            context = context;
            created_at = now;
            timeout = timeout;
          })
        ]
