-- ===== src/Server/Run.antt =====
-- mbus_server_run_timeout in two halves: before the call of poll, and from the label `out` on.
use mbus.Base.{map, if◌then◌else◌, Exec, done, ◌>>=◌, Rc, ok, fail}
use mbus.Server.{Server, Env}
use mbus.Server.Dispatch.{handle_methods}
use mbus.Server.Pings.{check_pings}
use mbus.Server.Outbound.{prepare_out}
use mbus.Server.Receive.{receive_all}
use mbus.Server.Presence.{handles, accept_client, connect_clients, disconnect_clients}

-- The return value: -1, 1 or 0.
pub data Outcome : Type 0 where
  failed : Outcome
  stopped : Outcome
  running : Outcome

module _ {J : Type 0} (e : Env J) where
  open e use {now}

  unfoldable pub after_disconnect : Server J × Rc → Server J × Outcome
  after_disconnect (s, fail) = (s, failed)
  after_disconnect (s, ok) = (s, if s.running then running else stopped)

  unfoldable pub after_connect : Server J × Rc → Exec (Server J × Outcome)
  unfolding after_disconnect
  after_connect (s, fail) = done (s, failed)
  after_connect (s, ok) =
      disconnect_clients e (handles s.clients) s >>= λ r. done (after_disconnect r)

  -- The status loops and the disconnects.
  unfoldable pub update_presence : Server J → Exec (Server J × Outcome)
  unfolding after_connect
  update_presence s =
      let s' : Server J = record s { clients = map accept_client s.clients } in
      after_connect (connect_clients e (handles s'.clients) s')

  unfoldable pub after_receive : Server J × Rc → Exec (Server J × Outcome)
  after_receive (s, fail) = done (s, failed)
  after_receive (s, ok) = handle_methods e s >>= λ s'. update_presence s'

  unfoldable pub run_after_poll : Server J → Exec (Server J × Outcome)
  unfolding after_receive
  run_after_poll s = receive_all e s >>= λ r. after_receive r

  -- The server's own loop has ended where `running` is false.
  unfoldable pub run_before_poll : Server J → Exec (Server J × Rc)
  run_before_poll s =
      if s.running
      then (handle_methods e s >>= λ s'. check_pings now s'.clients >>= λ cs.
          prepare_out e cs >>= λ r. done (record s' { clients = r.0 }, r.1))
      else done (s, ok)
