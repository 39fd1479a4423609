-- ===== src/Server/Examples/World.antt =====
-- A small JSON library, clients and requests, on which the theorems about the server are applied.
use mbus.Base.{
  ℕ, Bool, true, false, ◌&&◌, Option, none, some, List, [], ◌∷◌, String, ◌==◌, if◌then◌else◌,
  replicate, length-replicate,
}
use mbus.Base.Int.{ℤ, pos}
use mbus.Buffer.{Buffer, Memory}
use mbus.Compress.{method_none, Zlib}
use mbus.Json.{CJson, codes}
use mbus.Method.{
  Method, type_command, tag_type, tag_destination, tag_identifier, tag_sequence, tag_payload,
}
use mbus.Client.{Client, Subscription, unknown, Ping}
use mbus.Server.{Server, Env, server_identifier}

mutual
  pub data Value : Type 0 where
    text : String → Value
    number : ℤ → Value
    object : Members → Value
    items : Items → Value

  pub data Members : Type 0 where
    no_members : Members
    member : List ℕ → Value → Members → Members

  pub data Items : Type 0 where
    no_items : Items
    item : Value → Items → Items

unfoldable pub same_codes : List ℕ → List ℕ → Bool
same_codes [] [] = true
same_codes [] (b ∷ bs) = false
same_codes (a ∷ as') [] = false
same_codes (a ∷ as') (b ∷ bs) = (a == b) && same_codes as' bs

unfoldable pub find_member : Members → List ℕ → Option Value
find_member no_members name = none
find_member (member n v ms) name = if same_codes n name then some v else find_member ms name

unfoldable pub without : Members → List ℕ → Members
without no_members name = no_members
without (member n v ms) name =
    let rest = without ms name in if same_codes n name then ms else member n v rest

abbrev pub member_of : Value → List ℕ → Option Value
member_of (text s) name = none
member_of (number n) name = none
member_of (object ms) name = find_member ms name
member_of (items vs) name = none

abbrev pub as_text : Value → Option String
as_text (text s) = some s
as_text (number n) = none
as_text (object ms) = none
as_text (items vs) = none

abbrev pub as_number : Value → Option ℤ
as_number (text s) = none
as_number (number n) = some n
as_number (object ms) = none
as_number (items vs) = none

abbrev pub append_member : Members → List ℕ → Value → Members
append_member no_members name v = member name v no_members
append_member (member n w ms) name v = member n w (append_member ms name v)

abbrev pub with_member : Value → String → Value → Value
with_member (text s) name v = text s
with_member (number n) name v = number n
with_member (object ms) name v = object (append_member ms (codes name) v)
with_member (items vs) name v = items vs

abbrev pub drop_member : Value → String → Value
drop_member (text s) name = text s
drop_member (number n) name = number n
drop_member (object ms) name = object (without ms (codes name))
drop_member (items vs) name = items vs

-- A request of the type to the destination.
abbrev pub request_of : String → String → String → Members → Value
request_of type destination identifier payload = object (
    member (codes tag_type) (text type) (
      member (codes tag_destination) (text destination) (
        member (codes tag_identifier) (text identifier) (
          member (codes tag_sequence) (number (pos 7))
            (member (codes tag_payload) (object payload) no_members)))))

abbrev pub named : String → String → Members → Members
named name value rest = member (codes name) (text value) rest

abbrev pub subscribe_all : Value
subscribe_all =
    request_of type_command server_identifier "command.subscribe"
      (named "source" "anna" (named "event" "tick" no_members))

abbrev pub cj : CJson Value
cj = record {
  parse = λ s. if same_codes s (115 ∷ []) then some subscribe_all else none;
  print_unformatted = λ v. some (104 ∷ 105 ∷ []);
  get_object_item = member_of;
  value_string = as_text;
  value_int = as_number;
  is_array = λ v. false;
  get_array_size = λ v. 0;
  get_array_item = λ v n. none;
  create_object = object no_members;
  create_array = items no_items;
  create_string = text;
  create_number = number;
  add_item_to_object = with_member;
  add_item_to_array = λ v w. v;
  delete_item_from_object = drop_member;
  duplicate = λ v. v;
}

abbrev pub plenty : Memory
plenty = record {
  realloc_succeeds = λ n. true;
  malloc_succeeds = λ n. true;
  junk = λ n. replicate n 0;
  length_junk = λ n. length-replicate n 0;
}

abbrev pub plain : Zlib
plain = record { enabled = false; compress2 = λ s. none; uncompress = λ n s. none }

abbrev pub env : Env Value
env = record {
  cj = cj;
  zlib = plain;
  memory = plenty;
  now = 100000;
  draws = "id1" ∷ "id2" ∷ [];
  address = λ c. some "10.0.0.1";
  port = λ c. pos 4000;
}

abbrev pub nothing : Buffer
nothing = record { length = 0; size = 0; block = [] }

abbrev pub watched : Ping
watched = record {
  enabled = true;
  interval = pos 1000;
  timeout = pos 500;
  threshold = pos 2;
  recv_tsms = 5000;
  missed_count = 2;
}

abbrev pub somebody : ℕ → Option String → List Subscription → List String → Client Value
somebody handle identifier subscriptions commands = record {
  handle = handle;
  identifier = identifier;
  status = record { accepted = true; connected = true };
  compression = method_none;
  listener = 0;
  connection = some handle;
  connection_close_code = unknown;
  buffer_in = nothing;
  buffer_out = nothing;
  ping = watched;
  subscriptions = subscriptions;
  commands = commands;
  requests = [];
  results = [];
  events = [];
  waits = [];
  ssequence = 1;
  esequence = 1;
}

abbrev pub anna : Client Value
anna = somebody 1 (some "anna") (record { source = "bert"; event = "tick" } ∷ []) ("add" ∷ [])

abbrev pub bert : Client Value
bert = somebody 2 (some "bert") (record { source = "anna"; event = "tick" } ∷ []) []

abbrev pub stranger : Client Value
stranger = somebody 3 none [] []

abbrev pub method_from : ℕ → Value → Method Value
method_from handle request = record {
  request = request;
  result = some (object no_members);
  source = some handle;
}

abbrev pub house : List (Method Value) → Server Value
house methods = record {
  clients = anna ∷ bert ∷ stranger ∷ [];
  methods = methods;
  password = some "secret";
  running = true;
}
