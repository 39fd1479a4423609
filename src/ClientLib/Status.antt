-- ===== src/ClientLib/Status.antt =====
-- The texts for the enumerations of src/client/client.h, at the end of src/client/client.c.
use mbus.Base.{String}
use mbus.ClientLib.{
  ClientState, unknown_state, connecting, connected, disconnecting, disconnected, Qos, at_most_once,
  at_least_once, exactly_once, ConnectStatus, connect_success, connect_internal_error,
  invalid_protocol, connection_refused, server_unavailable, connect_timeout, connect_canceled,
  invalid_protocol_version, invalid_identifier, server_error, DisconnectStatus, disconnect_success,
  disconnect_internal_error, connection_closed, disconnect_canceled, ping_timed_out, RequestStatus,
  success, internal_error, timed_out, canceled, FdStatus, fd_create, fd_events, fd_destroy,
}

unfoldable pub state_string : ClientState → String
state_string unknown_state = "unknown"
state_string connecting = "connecting"
state_string connected = "connected"
state_string disconnecting = "disconnecting"
state_string disconnected = "disconnected"

unfoldable pub qos_string : Qos → String
qos_string at_most_once = "at most once"
qos_string at_least_once = "at least once"
qos_string exactly_once = "exactly once"

unfoldable pub connect_status_string : ConnectStatus → String
connect_status_string connect_success = "success"
connect_status_string connect_internal_error = "internal error"
connect_status_string invalid_protocol = "invalid protocol"
connect_status_string connection_refused = "connection refused"
connect_status_string server_unavailable = "server unavailable"
connect_status_string connect_timeout = "connection timeout"
connect_status_string connect_canceled = "connection canceled"
connect_status_string invalid_protocol_version = "invalid protocol version"
connect_status_string invalid_identifier = "invalid identifier"
connect_status_string server_error = "server error"

unfoldable pub disconnect_status_string : DisconnectStatus → String
disconnect_status_string disconnect_success = "success"
disconnect_status_string disconnect_internal_error = "internal error"
disconnect_status_string connection_closed = "connection closed"
disconnect_status_string disconnect_canceled = "canceled"
disconnect_status_string ping_timed_out = "ping timeout"

-- For events, subscriptions, registrations and commands alike.
unfoldable pub request_status_string : RequestStatus → String
request_status_string success = "success"
request_status_string internal_error = "internal error"
request_status_string timed_out = "timeout"
request_status_string canceled = "canceled"

unfoldable pub connectionfd_status_string : FdStatus → String
connectionfd_status_string fd_create = "create"
connectionfd_status_string fd_events = "events"
connectionfd_status_string fd_destroy = "destroy"
