-- ===== src/ClientLib/Invariant/Rounds.antt =====
-- mbus_client_run of src/client/client.c keeps the invariant of a client.
use mbus.Base.{
  ℕ, ◌+◌, ◌-◌, Bool, true, not, ◌&&◌, ◌||◌, take, ltb, if◌then◌else◌, Exec, done, Rc, ok, fail,
  arith,
}
use mbus.Base.Int.{is_le_zero}
use mbus.Buffer.{Buffer, reserve, write, shift}
use mbus.ClientLib.{
  Runtime, MbusClient, connecting, disconnected, notify_connect, connection_refused, plus_int,
}
use mbus.ClientLib.Requests.{note, is_connecting}
use mbus.ClientLib.Reset.{client_reset}
use mbus.ClientLib.Connect.{Dial, run_connect}
use mbus.ClientLib.Receive.{handle_incoming}
use mbus.ClientLib.Timers.{has_socket, clock_before, check_timers, expire}
use mbus.ClientLib.Flush.{flush, connection_fd_events}
use mbus.ClientLib.Run.{
  Read, received, read_again, read_closed, Written, wrote, write_again, write_failed, SocketError,
  no_error, error_refused, error_other, Poll, proceed, go_out, go_bail, Step, from_rc, attempt,
  leave, run_state, take_wakeup, stored, read_socket, reserved_read, on_readable, on_connected,
  on_writable, written_out, step_then, on_ready, on_poll, note_events, after_timers, finish_run,
  started, mbus_client_run,
}
use mbus.ClientLib.Invariant.{Holds, bind_Holds, any_Holds, if_Holds, Sound, state-Sound}
use mbus.ClientLib.Invariant.Resets.{client_reset-Sound}
use mbus.ClientLib.Invariant.Receiving.{SoundRc, handle_incoming-Sound}
use mbus.ClientLib.Invariant.Waiting.{check_timers-Sound, expire-Sound, flush-Sound}
use mbus.ClientLib.Invariant.Dialing.{create_request-Sound, given_up-Sound, run_connect-Sound}

module _ {J : Type 0} (rt : Runtime J) where
  abbrev SoundStep : Step rt → Type 0
  SoundStep s = Sound rt.cj s.0

  attempt-Sound : (d : Dial) (c : MbusClient J) → Sound rt.cj c → Holds SoundStep (attempt rt d c)
  unfolding attempt
  attempt-Sound d c s =
      if_Holds SoundStep
        (is_le_zero c.options.connect_interval
          || not (clock_before rt.now (plus_int c.connect_tsms c.options.connect_interval)))
        _ (done (c, proceed))
        (bind_Holds (SoundRc rt) SoundStep (run_connect rt d (record c { connect_tsms = rt.now }))
          (λ r. done (from_rc rt r)) (run_connect-Sound rt d (record c { connect_tsms = rt.now }) s)
          (λ r s'. s'))
        s

  disconnected-Sound :
      (c : MbusClient J) → Sound rt.cj c → Sound rt.cj (record c { state = disconnected })
  disconnected-Sound c s =
      state-Sound rt c.state disconnected c.sequence c.requests c.pendings
        (λ h. absurd (ground (arith, h))) s

  connecting-Sound :
      (c : MbusClient J) → Sound rt.cj c → Sound rt.cj (record c { state = connecting })
  connecting-Sound c s =
      state-Sound rt c.state connecting c.sequence c.requests c.pendings
        (λ h. absurd (ground (arith, h))) s

  leave-Sound : (c : MbusClient J) → Sound rt.cj c → Holds SoundStep (leave rt c)
  unfolding leave note
  leave-Sound c s =
      bind_Holds (Sound rt.cj) SoundStep (client_reset rt c) _ (client_reset-Sound rt c s)
        disconnected-Sound

  run_state-Sound :
      (d : Dial) (c : MbusClient J) → Sound rt.cj c → Holds SoundStep (run_state rt d c)
  unfolding run_state
  run_state-Sound d c s = ground (arith, attempt-Sound d c s, leave-Sound c s, connecting-Sound c s)

  take_wakeup-Sound : (c : MbusClient J) → Sound rt.cj c → Sound rt.cj (take_wakeup rt c)
  unfolding take_wakeup
  take_wakeup-Sound c s = ground arith

  read_socket-Sound :
      (c : MbusClient J) (b : Buffer) (r : Read)
      → Sound rt.cj c
      → Holds SoundStep (read_socket rt c b r)
  unfolding read_socket stored note
  read_socket-Sound c b (received bytes) s =
      bind_Holds (λ _. Unit) SoundStep (write b.block b.length (take (b.size - b.length) bytes)) _
        (any_Holds (write b.block b.length (take (b.size - b.length) bytes))) (λ block _. s)
  read_socket-Sound c b read_again s = s
  read_socket-Sound c b read_closed s =
      bind_Holds (Sound rt.cj) SoundStep (client_reset rt (record c { incoming = b })) _
        (client_reset-Sound rt (record c { incoming = b }) s) disconnected-Sound

  reserved_read-Sound :
      (c : MbusClient J) (r : Read) (b : Buffer × Rc)
      → Sound rt.cj c
      → Holds SoundStep (reserved_read rt c r b)
  unfolding reserved_read
  reserved_read-Sound c r (b, fail) s = s
  reserved_read-Sound c r (b, ok) s = read_socket-Sound c b r s

  on_readable-Sound :
      (c : MbusClient J) (r : Read) → Sound rt.cj c → Holds SoundStep (on_readable rt c r)
  unfolding on_readable
  on_readable-Sound c r s =
      bind_Holds (λ _. Unit) SoundStep (reserve rt.memory c.incoming (c.incoming.length + 1024)) _
        (any_Holds (reserve rt.memory c.incoming (c.incoming.length + 1024)))
        (λ b _. reserved_read-Sound c r b s)

  on_connected-Sound :
      (c : MbusClient J) (e : SocketError) → Sound rt.cj c → Holds SoundStep (on_connected rt c e)
  unfolding on_connected note
  on_connected-Sound c no_error s = create_request-Sound rt (record c { socket_connected = true }) s
  on_connected-Sound c error_refused s =
      bind_Holds (Sound rt.cj) SoundStep
        (client_reset rt (note c (notify_connect connection_refused))) _
        (client_reset-Sound rt (note c (notify_connect connection_refused)) s) (given_up-Sound rt)
  on_connected-Sound c error_other s = s

  written-Sound :
      (c : MbusClient J) (w : Written) → Sound rt.cj c → Holds SoundStep (written_out rt c w)
  unfolding written_out
  written-Sound c (wrote n) s =
      bind_Holds (λ _. Unit) SoundStep (shift c.outgoing n) _ (any_Holds (shift c.outgoing n))
        (λ r _. s)
  written-Sound c write_again s = s
  written-Sound c write_failed s = s

  on_writable-Sound :
      (c : MbusClient J) (e : SocketError) (w : Written)
      → Sound rt.cj c
      → Holds SoundStep (on_writable rt c e w)
  unfolding on_writable
  on_writable-Sound c e w s =
      if_Holds SoundStep (is_connecting c.state && not c.socket_connected) _ _
        (on_connected-Sound c e s)
        (if_Holds SoundStep (ltb 0 c.outgoing.length) _ _ (written-Sound c w s) s)

  step_then-Sound :
      (x : Step rt) (next : MbusClient J → Exec (Step rt))
      → SoundStep x
      → ((c : MbusClient J) → Sound rt.cj c → Holds SoundStep (next c))
      → Holds SoundStep (step_then rt x next)
  unfolding step_then
  step_then-Sound (c, proceed) next s k = k c s
  step_then-Sound (c, go_out) next s k = s
  step_then-Sound (c, go_bail) next s k = s

  on_ready-Sound :
      (p : Poll) (socket : Bool) (c : MbusClient J)
      → Sound rt.cj c
      → Holds SoundStep (on_ready rt p socket c)
  unfolding on_ready
  on_ready-Sound p socket c s =
      let woken = take_wakeup rt c in
      let s' = take_wakeup-Sound c s in
      bind_Holds SoundStep SoundStep
        (if socket && p.readable then on_readable rt woken p.read else done (woken, proceed)) _
        (if_Holds SoundStep (socket && p.readable) _ _ (on_readable-Sound woken p.read s') s')
        (λ x t. step_then-Sound x _ t (λ c' t'.
          if_Holds SoundStep (socket && p.writable) _ _
            (on_writable-Sound c' p.socket_error p.written t') t'))

  on_poll-Sound : (p : Poll) (c : MbusClient J) → Sound rt.cj c → Holds SoundStep (on_poll rt p c)
  unfolding on_poll
  on_poll-Sound p c s =
      let later = record rt { now = p.now } in
      let handled =
        bind_Holds SoundStep SoundStep (on_ready rt p (has_socket c.socket) c) _
          (on_ready-Sound p (has_socket c.socket) c s)
          (λ x t. step_then-Sound x _ t (λ c' t'.
            bind_Holds (SoundRc rt) SoundStep (handle_incoming later c') (λ r. done (from_rc rt r))
              (handle_incoming-Sound later c' t') (λ r u. u))) in
      ground (arith, handled)

  note_events-Sound :
      (events : ℕ) (r : MbusClient J × Rc) → SoundRc rt r → SoundRc rt (note_events rt events r)
  unfolding note_events note
  note_events-Sound events (c, fail) s = s
  note_events-Sound events (c, ok) s = ground arith

  after_timers-Sound :
      (later events : ℕ) (r : MbusClient J × Rc)
      → SoundRc rt r
      → Holds (SoundRc rt) (after_timers rt later events r)
  unfolding after_timers
  after_timers-Sound later events (c, fail) s = s
  after_timers-Sound later events (c, ok) s =
      let behind : Runtime J = record rt { now = later } in
      bind_Holds (Sound rt.cj) (SoundRc rt) (expire behind c) _ (expire-Sound behind c s) (λ c' s'.
        bind_Holds (SoundRc rt) (SoundRc rt) (flush behind c'.requests c')
          (λ r. done (note_events rt events r)) (flush-Sound behind c'.requests c' s'.requests s')
          (λ r t. note_events-Sound events r t))

  finish_run-Sound :
      (later events : ℕ) (x : Step rt)
      → SoundStep x
      → Holds (SoundRc rt) (finish_run rt later events x)
  unfolding finish_run
  finish_run-Sound later events (c, go_bail) s = s
  finish_run-Sound later events (c, go_out) s =
      bind_Holds (SoundRc rt) (SoundRc rt) (check_timers (record rt { now = later }) 2 c) _
        (check_timers-Sound (record rt { now = later }) 2 c s) (after_timers-Sound later events)
  finish_run-Sound later events (c, proceed) s =
      bind_Holds (SoundRc rt) (SoundRc rt) (check_timers (record rt { now = later }) 2 c) _
        (check_timers-Sound (record rt { now = later }) 2 c s) (after_timers-Sound later events)

  started-Sound : (p : Poll) (x : Step rt) → SoundStep x → Holds (SoundRc rt) (started rt p x)
  unfolding started
  started-Sound p (c, go_bail) s = s
  started-Sound p (c, go_out) s = finish_run-Sound p.now 0 (c, go_out) s
  started-Sound p (c, proceed) s =
      bind_Holds SoundStep (SoundRc rt) (on_poll rt p c) _ (on_poll-Sound p c s)
        (finish_run-Sound p.now (connection_fd_events c))

  -- A round of the client, whatever the calls of the system return, keeps the invariant.
  pub mbus_client_run-Sound :
      (d : Dial) (p : Poll) (c : MbusClient J)
      → Sound rt.cj c
      → Holds (SoundRc rt) (mbus_client_run rt d p c)
  unfolding mbus_client_run
  mbus_client_run-Sound d p c s =
      bind_Holds SoundStep (SoundRc rt) (run_state rt d c) _ (run_state-Sound d c s)
        (started-Sound p)
