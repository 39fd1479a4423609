-- ===== src/Client.antt =====
-- `struct client` of src/server/server.c with the functions client_*, and the records of
-- src/server/subscription.c and src/server/command.c.
--
-- A client's address is the number `handle`, as is a connection's and a listener's; a tail queue is
-- a list. The pointer arguments of these functions are never NULL but where they are an `Option`.
-- Closing a connection succeeds, and so do allocations.
pub mod Laws
use mbus.Base.{
  ℕ, zero, suc, Bool, true, false, ◌&&◌, Option, none, some, List, [], ◌∷◌, ◌++◌, String, str_eq,
  if◌then◌else◌, Exec, done, fault, Rc, ok, fail,
}
use mbus.Base.Int.{ℤ, pos}
use mbus.Buffer.{Buffer, create}
use mbus.Compress.{Compression, method_none}
use mbus.Method.{Method, sequence_start}

pub record Subscription : Type 0 where
  pub source : String
  pub event : String

pub data CloseCode : Type 0 where
  unknown : CloseCode
  close_comand : CloseCode
  ping_threshold : CloseCode
  connection_closed : CloseCode
  internal_error : CloseCode

unfoldable pub close_code_string : CloseCode → String
close_code_string unknown = "unknown"
close_code_string close_comand = "close_command"
close_code_string ping_threshold = "ping_threshold"
close_code_string connection_closed = "connection_closed"
close_code_string internal_error = "internal_error"

-- The bits of `enum client_status`.
pub record Status : Type 0 where
  pub accepted : Bool
  pub connected : Bool

pub record Ping : Type 0 where
  pub enabled : Bool
  pub interval : ℤ
  pub timeout : ℤ
  pub threshold : ℤ
  pub recv_tsms : ℕ
  pub missed_count : ℕ

pub record Client (J : Type 0) : Type 0 where
  pub handle : ℕ
  pub identifier : Option String
  pub status : Status
  pub compression : Compression
  pub listener : ℕ
  pub connection : Option ℕ
  pub connection_close_code : CloseCode
  pub buffer_in : Buffer
  pub buffer_out : Buffer
  pub ping : Ping
  pub subscriptions : List Subscription
  pub commands : List String
  pub requests : List (Method J)
  pub results : List (Method J)
  pub events : List (Method J)
  pub waits : List (Method J)
  pub ssequence : ℕ
  pub esequence : ℕ

abbrev pub same_subscription : Subscription → String → String → Bool
same_subscription s source event = str_eq s.source source && str_eq s.event event

-- TAILQ_FOREACH up to the first match, and its removal.
unfoldable pub has_subscription : List Subscription → String → String → Bool
has_subscription [] source event = false
has_subscription (s ∷ ss) source event =
    if same_subscription s source event then true else has_subscription ss source event

unfoldable pub remove_subscription : List Subscription → String → String → List Subscription
remove_subscription [] source event = []
remove_subscription (s ∷ ss) source event =
    if same_subscription s source event then ss else s ∷ remove_subscription ss source event

unfoldable pub has_command : List String → String → Bool
has_command [] identifier = false
has_command (c ∷ cs) identifier = if str_eq c identifier then true else has_command cs identifier

unfoldable pub remove_command : List String → String → List String
remove_command [] identifier = []
remove_command (c ∷ cs) identifier =
    if str_eq c identifier then cs else c ∷ remove_command cs identifier

module _ {J : Type 0} where
  unfoldable pub client_create : ℕ → ℕ → ℕ → Client J
  client_create handle listener connection = record {
    handle = handle;
    identifier = none;
    status = record { accepted = false; connected = false };
    compression = method_none;
    listener = listener;
    connection = some connection;
    connection_close_code = unknown;
    buffer_in = create;
    buffer_out = create;
    ping = record {
      enabled = false;
      interval = pos 0;
      timeout = pos 0;
      threshold = pos 0;
      recv_tsms = 0;
      missed_count = 0;
    };
    subscriptions = [];
    commands = [];
    requests = [];
    results = [];
    events = [];
    waits = [];
    ssequence = sequence_start;
    esequence = sequence_start;
  }

  unfoldable pub client_set_connection : Client J → Option ℕ → CloseCode → Client J × Rc
  client_set_connection c none code =
      (record c { connection = none; connection_close_code = code }, ok)
  client_set_connection c (some connection) code = elim c.connection [
    | none ↦ (record c { connection = some connection; connection_close_code = code }, ok)
    | some old ↦ (c, fail)
  ]

  unfoldable pub client_set_identifier : Client J → Option String → Client J × Rc
  client_set_identifier c none = (c, fail)
  client_set_identifier c (some identifier) = (record c { identifier = some identifier }, ok)

  unfoldable pub client_add_subscription : Client J → String → String → Client J × Rc
  client_add_subscription c source event =
      if has_subscription c.subscriptions source event then (c, ok) else (
        record c {
          subscriptions = c.subscriptions ++ (record { source = source; event = event } ∷ []);
        },
        ok,
      )

  unfoldable pub client_del_subscription : Client J → String → String → Client J × Rc
  client_del_subscription c source event =
      if has_subscription c.subscriptions source event
      then (record c { subscriptions = remove_subscription c.subscriptions source event }, ok)
      else (c, fail)

  unfoldable pub client_add_command : Client J → String → Client J × Rc
  client_add_command c identifier =
      if has_command c.commands identifier
      then (c, ok)
      else (record c { commands = c.commands ++ (identifier ∷ []) }, ok)

  -- The command is removed without a test that one was found: TAILQ_REMOVE of NULL.
  unfoldable pub client_del_command : Client J → String → Exec (Client J × Rc)
  client_del_command c identifier =
      if has_command c.commands identifier
      then done (record c { commands = remove_command c.commands identifier }, ok)
      else fault

  unfoldable pub client_push_request : Client J → Method J → Client J
  client_push_request c m = record c { requests = c.requests ++ (m ∷ []) }

  unfoldable pub client_push_result : Client J → Method J → Client J
  client_push_result c m = record c { results = c.results ++ (m ∷ []) }

  unfoldable pub client_push_event : Client J → Method J → Client J
  client_push_event c m = record c { events = c.events ++ (m ∷ []) }

  unfoldable pub client_push_wait : Client J → Method J → Client J
  client_push_wait c m = record c { waits = c.waits ++ (m ∷ []) }

  -- `if (count <= 0) goto bail`, and the head of the queue.
  abbrev pop : List (Method J) → Option (Method J × List (Method J))
  pop [] = none
  pop (m ∷ ms) = some (m, ms)

  unfoldable pub client_pop_request : Client J → Option (Method J × Client J)
  client_pop_request c = elim (pop c.requests) [
    | none ↦ none
    | some (m, rest) ↦ some (m, record c { requests = rest })
  ]

  unfoldable pub client_pop_result : Client J → Option (Method J × Client J)
  client_pop_result c = elim (pop c.results) [
    | none ↦ none
    | some (m, rest) ↦ some (m, record c { results = rest })
  ]

  unfoldable pub client_pop_event : Client J → Option (Method J × Client J)
  client_pop_event c = elim (pop c.events) [
    | none ↦ none
    | some (m, rest) ↦ some (m, record c { events = rest })
  ]
