-- ===== src/ClientLib/Run.antt =====
-- mbus_client_run of src/client/client.c: one round of the client.
--
-- `Poll` is what poll and the calls on the descriptors return. The clock is read once before poll
-- and once behind it.
use mbus.Base.{
  ℕ, ◌+◌, ◌-◌, Bool, true, not, ◌&&◌, ◌||◌, List, [], ◌∷◌, ltb, length, take, ◌==◌, if◌then◌else◌,
  Exec, done, ◌>>=◌, Rc, ok, fail,
}
use mbus.Base.Int.{is_le_zero}
use mbus.Buffer.{Buffer, reserve, write, set_length, shift}
use mbus.ClientLib.{
  Runtime, MbusClient, Wakeup, connecting, connected, disconnecting, disconnected, unknown_state,
  connection_refused, connect_internal_error, connection_closed, disconnect_success, notify_connect,
  notify_disconnect, notify_connectionfd, fd_events, plus_int,
}
use mbus.ClientLib.Requests.{note, retry_state, is_connecting}
use mbus.ClientLib.Reset.{client_reset}
use mbus.ClientLib.Connect.{Dial, command_create_request, run_connect, note_given_up}
use mbus.ClientLib.Receive.{handle_incoming}
use mbus.ClientLib.Timers.{has_socket, clock_before, check_timers, expire}
use mbus.ClientLib.Flush.{flush, connection_fd_events}

pub data Read : Type 0 where
  received : List ℕ → Read
  read_again : Read
  read_closed : Read

pub data Written : Type 0 where
  wrote : ℕ → Written
  write_again : Written
  write_failed : Written

pub data SocketError : Type 0 where
  no_error : SocketError
  error_refused : SocketError
  error_other : SocketError

pub data Polled : Type 0 where
  nothing_ready : Polled
  poll_error : Polled
  ready : Polled

-- poll does not return 0 while a reason is unread in the wakeup pipe.
abbrev pub polled_with : Polled → List Wakeup → Polled
polled_with nothing_ready [] = nothing_ready
polled_with nothing_ready (w ∷ ws) = ready
polled_with poll_error ws = poll_error
polled_with ready ws = ready

-- The descriptor of the socket is readable or writable only where there is a socket.
pub record Poll : Type 0 where
  pub polled : Polled
  pub readable : Bool
  pub writable : Bool
  pub read : Read
  pub socket_error : SocketError
  pub written : Written
  pub now : ℕ

-- Where the code goes next: on, to `out`, or to `bail`.
pub data Onward : Type 0 where
  proceed : Onward
  go_out : Onward
  go_bail : Onward

unfoldable pub next_of : Rc → Onward
next_of ok = proceed
next_of fail = go_bail

module _ {J : Type 0} (rt : Runtime J) where
  open rt use {memory, now}

  abbrev pub Step : Type 0
  Step = MbusClient J × Onward

  abbrev pub from_rc : MbusClient J × Rc → Step
  from_rc (c, rc) = (c, next_of rc)

  -- `connecting` without a socket: an attempt, if the interval since the last one is over.
  unfoldable pub attempt : Dial → MbusClient J → Exec Step
  unfolding next_of clock_before
  attempt d c =
      if is_le_zero c.options.connect_interval
        || not (clock_before now (plus_int c.connect_tsms c.options.connect_interval))
      then (run_connect rt d (record c { connect_tsms = now }) >>= λ r. done (from_rc r))
      else done (c, proceed)

  unfoldable pub leave : MbusClient J → Exec Step
  unfolding note
  leave c = client_reset rt c >>= λ c'.
      done
        (note (record c' { state = disconnected }) (notify_disconnect disconnect_success), go_out)

  unfoldable pub run_state : Dial → MbusClient J → Exec Step
  unfolding attempt leave
  run_state d c = elim c.state [
    | connecting ↦ if has_socket c.socket then done (c, proceed) else attempt d c
    | connected ↦ done (c, proceed)
    | disconnecting ↦ leave c
    | disconnected ↦
        if is_le_zero c.options.connect_interval
        then done (c, proceed)
        else done (record c { state = connecting }, go_out)
    | unknown_state ↦ done (c, go_bail)
  ]

  -- The read of a wakeup reason.
  unfoldable pub take_wakeup : MbusClient J → MbusClient J
  take_wakeup c = elim c.wakeups [ [] ↦ c | w ∷ ws ↦ record c { wakeups = ws } ]

  unfoldable pub stored : MbusClient J → Buffer × Rc → Step
  unfolding next_of
  stored c (b, rc) = (record c { incoming = b }, next_of rc)

  -- read into the room behind the bytes in use; it never returns more than the room.
  unfoldable pub read_socket : MbusClient J → Buffer → Read → Exec Step
  unfolding note stored
  read_socket c b (received bytes) =
      let taken = take (b.size - b.length) bytes in
      write b.block b.length taken >>= λ block.
      done (stored c (set_length (record b { block = block }) (b.length + length taken)))
  read_socket c b read_again = done (record c { incoming = b }, proceed)
  read_socket c b read_closed = client_reset rt (record c { incoming = b }) >>= λ c'.
      done (note (record c' { state = disconnected }) (notify_disconnect connection_closed), go_out)

  unfoldable pub reserved_read : MbusClient J → Read → Buffer × Rc → Exec Step
  unfolding read_socket
  reserved_read c r (b, fail) = done (record c { incoming = b }, go_bail)
  reserved_read c r (b, ok) = read_socket c b r

  unfoldable pub on_readable : MbusClient J → Read → Exec Step
  unfolding reserved_read
  on_readable c r = reserve memory c.incoming (c.incoming.length + 1024) >>= reserved_read c r

  -- The outcome of a connection that was in progress.
  unfoldable pub on_connected : MbusClient J → SocketError → Exec Step
  unfolding note retry_state note_given_up
  on_connected c no_error =
      done (from_rc (command_create_request rt (record c { socket_connected = true })))
  on_connected c error_refused =
      client_reset rt (note c (notify_connect connection_refused)) >>= λ c'.
      done (note_given_up rt (record c' { state = retry_state c'.options }), go_out)
  on_connected c error_other = done (note c (notify_connect connect_internal_error), go_bail)

  -- The write of the output buffer.
  unfoldable pub written_out : MbusClient J → Written → Exec Step
  unfolding next_of
  written_out c (wrote n) =
      shift c.outgoing n >>= λ r. done (record c { outgoing = r.0 }, next_of r.1)
  written_out c write_again = done (c, proceed)
  written_out c write_failed = done (c, go_bail)

  unfoldable pub on_writable : MbusClient J → SocketError → Written → Exec Step
  unfolding on_connected written_out
  on_writable c error written =
      if is_connecting c.state && not c.socket_connected
      then on_connected c error
      else if ltb 0 c.outgoing.length
      then written_out c written
      else done (c, proceed)

  unfoldable pub step_then : Step → (MbusClient J → Exec Step) → Exec Step
  step_then (c, proceed) next = next c
  step_then (c, go_out) next = done (c, go_out)
  step_then (c, go_bail) next = done (c, go_bail)

  -- The descriptors that are ready.
  unfoldable pub on_ready : Poll → Bool → MbusClient J → Exec Step
  unfolding take_wakeup on_readable on_writable step_then
  on_ready p socket c =
      let woken = take_wakeup c in
      (if socket && p.readable then on_readable woken p.read else done (woken, proceed)) >>= λ s.
      step_then s (λ c'.
        if socket && p.writable
        then on_writable c' p.socket_error p.written
        else done (c', proceed))

  unfoldable pub on_poll : Poll → MbusClient J → Exec Step
  unfolding on_ready step_then
  on_poll p c = elim (polled_with p.polled c.wakeups) [
    | nothing_ready ↦ done (c, go_out)
    | poll_error ↦ done (c, go_bail)
    | ready ↦ on_ready p (has_socket c.socket) c >>= λ s.
        step_then s (λ c'. handle_incoming (record rt { now = p.now }) c' >>= λ r. done (from_rc r))
  ]

  -- Behind the queues: the program hears of other events for the descriptor.
  unfoldable pub note_events : ℕ → MbusClient J × Rc → MbusClient J × Rc
  unfolding note
  note_events events (c, fail) = (c, fail)
  note_events events (c, ok) =
      if events == connection_fd_events c
      then (c, ok)
      else (note c (notify_connectionfd fd_events), ok)

  unfoldable pub after_timers : ℕ → ℕ → MbusClient J × Rc → Exec (MbusClient J × Rc)
  unfolding note_events
  after_timers later events (c, fail) = done (c, fail)
  after_timers later events (c, ok) =
      let behind : Runtime J = record rt { now = later } in
      expire behind c >>= λ c'. flush behind c'.requests c' >>= λ r. done (note_events events r)

  -- Behind `out`, where `events` are those before poll, or 0, and `later` is the clock.
  unfoldable pub finish_run : ℕ → ℕ → Step → Exec (MbusClient J × Rc)
  unfolding after_timers
  finish_run later events (c, go_bail) = done (c, fail)
  finish_run later events (c, go_out) =
      check_timers (record rt { now = later }) 2 c >>= after_timers later events
  finish_run later events (c, proceed) =
      check_timers (record rt { now = later }) 2 c >>= after_timers later events

  unfoldable pub started : Poll → Step → Exec (MbusClient J × Rc)
  unfolding on_poll finish_run
  started p (c, go_bail) = done (c, fail)
  started p (c, go_out) = finish_run p.now 0 (c, go_out)
  started p (c, proceed) = on_poll p c >>= finish_run p.now (connection_fd_events c)

  unfoldable pub mbus_client_run : Dial → Poll → MbusClient J → Exec (MbusClient J × Rc)
  unfolding run_state started
  mbus_client_run d p c = run_state d c >>= started p
