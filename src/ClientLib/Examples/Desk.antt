-- ===== src/ClientLib/Examples/Desk.antt =====
-- Clients of the library, and their requests, on which the theorems are applied.
use mbus.Base.{ℕ, true, false, Option, none, some, List, [], ◌∷◌, String, ok}
use mbus.Base.Int.{pos}
use mbus.Compress.{method_none}
use mbus.Json.{codes}
use mbus.Method.{type_command, type_result, tag_type, tag_sequence, tag_status}
use mbus.Server.{server_identifier}
use mbus.ClientLib.{
  Runtime, ClientOptions, MbusClient, Request, LocalRoutine, Callback, on_nothing, on_register,
  on_create, Context, no_context, routine_context, ClientState, connected,
}
use mbus.ClientLib.Connect.{Dial, other_error}
use mbus.ClientLib.Run.{Poll, nothing_ready, read_again, no_error, write_again}
use mbus.Server.Examples.World.{
  Value, text, number, object, no_members, member, named, request_of, cj, plain, plenty, nothing,
}

abbrev pub rt : Runtime Value
rt = record {
  cj = cj;
  zlib = plain;
  memory = plenty;
  now = 5000;
  serve = λ callback json. (pos 0, none);
}

abbrev pub no_options : ClientOptions
no_options = record {
  identifier = none;
  password = none;
  connect_timeout = pos 0;
  connect_interval = pos 0;
  subscribe_timeout = pos 0;
  register_timeout = pos 0;
  command_timeout = pos 0;
  publish_timeout = pos 0;
  server_protocol = none;
  server_address = none;
  server_port = pos 0;
  ping_interval = pos 0;
  ping_timeout = pos 0;
  ping_threshold = pos 0;
}

abbrev pub usual_options : ClientOptions
usual_options = record {
  identifier = some "";
  password = some "";
  connect_timeout = pos 30000;
  connect_interval = pos 0;
  subscribe_timeout = pos 30000;
  register_timeout = pos 30000;
  command_timeout = pos 30000;
  publish_timeout = pos 30000;
  server_protocol = some "uds";
  server_address = some "/tmp/mbus-server-uds";
  server_port = pos 0;
  ping_interval = pos 180000;
  ping_timeout = pos 5000;
  ping_threshold = pos 2;
}

-- A client in a state, with a socket or none, and with two queues.
abbrev pub desk :
    ClientState → Option ℕ → List (Request Value) → List (Request Value) → MbusClient Value
desk state socket requests pendings = record {
  options = usual_options;
  state = state;
  socket = socket;
  requests = requests;
  pendings = pendings;
  routines = [];
  subscriptions = [];
  incoming = nothing;
  outgoing = nothing;
  identifier = none;
  connect_tsms = 0;
  ping_interval = pos 0;
  ping_timeout = pos 0;
  ping_threshold = pos 0;
  ping_send_tsms = 0;
  pong_recv_tsms = 0;
  ping_wait_pong = false;
  pong_missed_count = 0;
  compression = method_none;
  socket_connected = false;
  sequence = 1;
  wakeups = [];
  notices = [];
}

abbrev pub adder : LocalRoutine
adder = record { identifier = "add"; callback = none; context = 0 }

-- A command to the server; the text is one that the library of the examples parses.
abbrev pub command_with : String → Callback → Context → Request Value
command_with name callback target = record {
  string = 115 ∷ [];
  json = request_of type_command server_identifier name (named "command" "add" no_members);
  callback = callback;
  context = target;
  created_at = 4000;
  timeout = pos 30000;
}

abbrev pub subscribing_request : Request Value
subscribing_request = command_with "command.subscribe" on_nothing no_context

abbrev pub registering_request : Request Value
registering_request = command_with "command.register" on_register (routine_context adder)

abbrev pub status_request : Request Value
status_request = command_with "command.status" on_nothing no_context

-- A command to the server under the number 6.
abbrev pub first_request : Request Value
first_request = record status_request {
  json = object (member (codes tag_sequence) (number (pos 6)) no_members);
}

abbrev pub creating_request : Request Value
creating_request = command_with "command.create" on_create no_context

-- A client whose ping has had no answer for longer than the interval.
abbrev pub unanswered : MbusClient Value
unanswered = record (desk connected (some 3) (status_request ∷ []) []) {
  socket_connected = true;
  ping_interval = pos 2000;
  ping_timeout = pos 1000;
  ping_send_tsms = 3500;
  ping_wait_pong = true;
}

-- The answer to a request with the number 7.
abbrev pub answer_with : ℕ → Value
answer_with status = object (
    member (codes tag_type) (text type_result) (
      member (codes tag_sequence) (number (pos 7))
        (member (codes tag_status) (number (pos status)) no_members)))

-- No socket can be had.
abbrev pub no_dial : Dial
no_dial = record { socket = none; reuseaddr = ok; blocking = ok; connect = other_error }

-- Nothing happens for a second.
abbrev pub quiet_poll : Poll
quiet_poll = record {
  polled = nothing_ready;
  readable = false;
  writable = false;
  read = read_again;
  socket_error = no_error;
  written = write_again;
  now = 6000;
}

-- The frame of a request of these.
abbrev pub sent_bytes : List ℕ
sent_bytes = 0 ∷ 0 ∷ 0 ∷ 1 ∷ 115 ∷ []
