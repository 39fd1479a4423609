-- ===== src/ClientLib/Options.antt =====
-- mbus_client_create of src/client/client.c: the defaults of the options, and the new client.
use mbus.Base.{false, Option, none, some, [], String, str_eq, if◌then◌else◌}
use mbus.Base.Int.{ℤ, pos, le_int, eq_int}
use mbus.Buffer.{create}
use mbus.Compress.{method_none}
use mbus.Method.{sequence_start}
use mbus.ClientLib.{ClientOptions, MbusClient, disconnected}
use mbus.ClientLib.Requests.{or_default}

-- MBUS_CLIENT_DEFAULT_* but for the ones that are the same.
abbrev pub default_timeout : ℤ
default_timeout = pos 30000

abbrev pub default_connect_interval : ℤ
default_connect_interval = pos 0

abbrev pub default_ping_interval : ℤ
default_ping_interval = pos 180000

abbrev pub default_ping_timeout : ℤ
default_ping_timeout = pos 5000

abbrev pub default_ping_threshold : ℤ
default_ping_threshold = pos 2

-- `if (x == NULL) x = y`
abbrev pub or_string : Option String → String → Option String
or_string none default = some default
or_string (some s) default = some s

-- `if (x == 0) x = y`; a negative number turns pings off and stays.
unfoldable pub if_zero : ℤ → ℤ → ℤ
if_zero n default = if eq_int n (pos 0) then default else n

-- `if (timeout > interval) timeout = interval`
unfoldable pub at_most_int : ℤ → ℤ → ℤ
at_most_int timeout interval = if le_int timeout interval then timeout else interval

-- The part before the protocol.
unfoldable pub with_defaults : ClientOptions → ClientOptions
unfolding or_default if_zero at_most_int
with_defaults o =
    let interval = if_zero o.ping_interval default_ping_interval in
    record {
      identifier = or_string o.identifier "";
      password = or_string o.password "";
      connect_timeout = or_default o.connect_timeout default_timeout;
      connect_interval = or_default o.connect_interval default_connect_interval;
      subscribe_timeout = or_default o.subscribe_timeout default_timeout;
      register_timeout = or_default o.register_timeout default_timeout;
      command_timeout = or_default o.command_timeout default_timeout;
      publish_timeout = or_default o.publish_timeout default_timeout;
      server_protocol = or_string o.server_protocol "uds";
      server_address = o.server_address;
      server_port = o.server_port;
      ping_interval = interval;
      ping_timeout = at_most_int (if_zero o.ping_timeout default_ping_timeout) interval;
      ping_threshold = if_zero o.ping_threshold default_ping_threshold;
    }

-- The port and the address of a protocol where the options have none.
unfoldable pub with_server : ClientOptions → ℤ → String → ClientOptions
unfolding or_default
with_server o port address = record o {
  server_port = or_default o.server_port port;
  server_address = or_string o.server_address address;
}

unfoldable pub server_defaults : ClientOptions → String → Option ClientOptions
unfolding with_server
server_defaults o protocol =
    if str_eq protocol "tcp"
    then some (with_server o (pos 8000) "127.0.0.1")
    else if str_eq protocol "uds"
    then some (with_server o (pos 0) "/tmp/mbus-server-uds")
    else if str_eq protocol "tcps"
    then some (with_server o (pos 8001) "127.0.0.1")
    else if str_eq protocol "udss"
    then some (with_server o (pos 0) "/tmp/mbus-server-udss")
    else none

unfoldable pub normal_options : ClientOptions → Option ClientOptions
unfolding with_defaults server_defaults
normal_options options =
    let o = with_defaults options in
    elim o.server_protocol [ none ↦ none | some protocol ↦ server_defaults o protocol ]

module _ {J : Type 0} where
  unfoldable pub new_client : ClientOptions → MbusClient J
  new_client options = record {
    options = options;
    state = disconnected;
    socket = none;
    requests = [];
    pendings = [];
    routines = [];
    subscriptions = [];
    incoming = create;
    outgoing = create;
    identifier = none;
    connect_tsms = 0;
    ping_interval = pos 0;
    ping_timeout = pos 0;
    ping_threshold = pos 0;
    ping_send_tsms = 0;
    pong_recv_tsms = 0;
    ping_wait_pong = false;
    pong_missed_count = 0;
    compression = method_none;
    socket_connected = false;
    sequence = sequence_start;
    wakeups = [];
    notices = [];
  }

  unfoldable pub mbus_client_create : ClientOptions → Option (MbusClient J)
  unfolding normal_options new_client
  mbus_client_create options = elim (normal_options options) [
    | none ↦ none
    | some o ↦ some (new_client o)
  ]
