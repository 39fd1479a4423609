-- ===== src/ClientLib/Stuck.antt =====
-- A connection of src/client/client.c that a program gives up and asks for again between two runs.
use mbus.Base.{
  ℕ, ◌≡◌, ◌<◌, ◌⊎◌, refl, Bool, true, false, some, List, [], ◌∷◌, ltb, Exec, done, ◌>>=◌, Rc, ok,
  arith, inl, inr,
}
use mbus.ClientLib.{Runtime, MbusClient, Wakeup, connected, connecting}
use mbus.ClientLib.Commands.{wakeup, client_connect, client_disconnect}
use mbus.ClientLib.Connect.{Dial}
use mbus.ClientLib.Receive.{incoming_loop, handle_incoming}
use mbus.ClientLib.Timers.{
  has_socket, connect_overdue, ping_round, back_to_out, check_timers, expire_requests,
  expire_pendings, expire,
}
use mbus.ClientLib.Flush.{flush, connection_fd_events}
use mbus.ClientLib.Run.{
  Poll, nothing_ready, proceed, go_out, next_of, run_state, take_wakeup, step_then, on_ready,
  on_poll, note_events, after_timers, finish_run, started, mbus_client_run,
}

-- A round: the clock before poll, the connection that an attempt would get, and what the calls on the
-- descriptors return.
pub record Round : Type 0 where
  pub before : ℕ
  pub dial : Dial
  pub poll : Poll

-- Nothing but the wakeup pipe is ready.
abbrev pub quiet : Poll → Poll
quiet p = record p { polled = nothing_ready; readable = false; writable = false }

abbrev pub rest_of {ℓ} : {A : Type ℓ} → List A → List A
rest_of [] = []
rest_of (x ∷ xs) = xs

module _ {J : Type 0} where
  -- A client whose connection stands and that has nothing to send or to wait for.
  pub record IsIdle (c : MbusClient J) : Type 0 where
    pub socket : (fd : ℕ) × (c.socket ≡ some fd)
    pub established : c.socket_connected ≡ true
    pub requests : c.requests ≡ []
    pub pendings : c.pendings ≡ []
    pub nothing_arrived : c.incoming.length < 4

  -- Still connecting over the connection that stands, with nothing to send.
  pub record IsStuck (c : MbusClient J) : Type 0 where
    pub state : c.state ≡ connecting
    pub idle : IsIdle c

module _ {J : Type 0} (rt : Runtime J) where
  -- The rounds in which nothing but the wakeup pipe is ready, in their order.
  unfoldable pub run_rounds : List Round → MbusClient J → Exec (MbusClient J × Rc)
  run_rounds [] c = done (c, ok)
  run_rounds (r ∷ rs) c =
      mbus_client_run (record rt { now = r.before }) r.dial (quiet r.poll) c >>= λ x.
      run_rounds rs x.0

  waits_on :
      (d : Dial) (c : MbusClient J)
      → c.state ≡ connecting
      → IsIdle c
      → run_state rt d c ≡ done (c, proceed)
  unfolding run_state
  waits_on d c e i = ground (arith, i.socket.1)

  nothing_handled :
      (later : Runtime J) (c : MbusClient J)
      → c.incoming.length < 4
      → handle_incoming later c ≡ done (c, ok)
  unfolding handle_incoming incoming_loop
  nothing_handled later c h =
      let short : ltb c.incoming.length 4 ≡ true = ground (arith, h) in rw short refl

  quiet_ready :
      (p : Poll) (socket : Bool) (w : Wakeup) (ws : List Wakeup) (c : MbusClient J)
      → on_ready rt (quiet p) socket (record c { wakeups = w ∷ ws })
        ≡ done (record c { wakeups = ws }, proceed)
  unfolding on_ready step_then take_wakeup
  quiet_ready p true w ws c = refl
  quiet_ready p false w ws c = refl

  -- A round reads a wakeup reason if there is one, and nothing else.
  nothing_polled :
      (p : Poll) (ws : List Wakeup) (c : MbusClient J)
      → c.incoming.length < 4
      → (on_poll rt (quiet p) (record c { wakeups = ws })
          ≡ done (record c { wakeups = rest_of ws }, proceed))
        ⊎ (on_poll rt (quiet p) (record c { wakeups = ws })
            ≡ done (record c { wakeups = rest_of ws }, go_out))
  unfolding on_poll step_then next_of
  nothing_polled p [] c h = inr refl
  nothing_polled p (w ∷ ws) c h = inl (
      rw
        (
          quiet_ready p (has_socket c.socket) w ws c,
          nothing_handled (record rt { now = p.now }) (record c { wakeups = ws }) h,
        )
        refl)

  module _ (later : ℕ) (c : MbusClient J) (e : c.state ≡ connecting) (i : IsIdle c) where
    later_runtime : Runtime J
    later_runtime = record rt { now = later }

    no_timer : check_timers later_runtime 2 c ≡ done (c, ok)
    unfolding check_timers connect_overdue ping_round back_to_out
    no_timer = ground (arith, i.established, e)

    none_expires : expire later_runtime c ≡ done c
    unfolding expire expire_requests expire_pendings
    none_expires = ground (arith, i.requests, i.pendings)

    none_flushed : flush later_runtime c.requests c ≡ done (c, ok)
    unfolding flush
    none_flushed = ground (arith, i.requests)

    same_events : note_events rt (connection_fd_events c) (c, ok) ≡ (c, ok)
    unfolding note_events
    same_events = ground arith

    nothing_after : after_timers rt later (connection_fd_events c) (c, ok) ≡ done (c, ok)
    unfolding after_timers later_runtime
    nothing_after = rw (none_expires, none_flushed, same_events) refl

    pub nothing_finished : finish_run rt later (connection_fd_events c) (c, go_out) ≡ done (c, ok)
    unfolding finish_run later_runtime
    nothing_finished = rw no_timer nothing_after

    pub nothing_finished_on :
        finish_run rt later (connection_fd_events c) (c, proceed) ≡ done (c, ok)
    unfolding finish_run later_runtime
    nothing_finished_on = rw no_timer nothing_after

  woken-IsIdle :
      (ws : List Wakeup) (c : MbusClient J) → IsIdle c → IsIdle (record c { wakeups = ws })
  woken-IsIdle ws c i = record {
    socket = i.socket;
    established = i.established;
    requests = i.requests;
    pendings = i.pendings;
    nothing_arrived = i.nothing_arrived;
  }

  idle_round :
      (d : Dial) (p : Poll) (c : MbusClient J)
      → c.state ≡ connecting
      → IsIdle c
      → mbus_client_run rt d (quiet p) c ≡ done (record c { wakeups = rest_of c.wakeups }, ok)
  unfolding mbus_client_run started connection_fd_events
  idle_round d p c e i =
      let c' : MbusClient J = record c { wakeups = rest_of c.wakeups } in
      let i' = woken-IsIdle (rest_of c.wakeups) c i in
      elim (nothing_polled p c.wakeups c i.nothing_arrived) [
        | inl on ↦ rw (waits_on d c e i, on) (nothing_finished_on p.now c' e i')
        | inr out ↦ rw (waits_on d c e i, out) (nothing_finished p.now c' e i')
      ]

  -- The client after the two calls.
  abbrev pub reconnected : MbusClient J → MbusClient J
  reconnected c = client_connect (client_disconnect c)

  reconnected-connecting :
      (c : MbusClient J) → c.state ≡ connected → (reconnected c).state ≡ connecting
  unfolding client_connect client_disconnect wakeup
  reconnected-connecting c e = ground arith

  reconnected-IsIdle : (c : MbusClient J) → c.state ≡ connected → IsIdle c → IsIdle (reconnected c)
  unfolding client_connect client_disconnect wakeup
  reconnected-IsIdle c e i = ground (arith, i)

module _ {J : Type 0} (rt : Runtime J) where
  run_rounds-IsStuck :
      (rs : List Round) (c : MbusClient J)
      → IsStuck c
      → (c' : MbusClient J) × (run_rounds rt rs c ≡ done (c', ok))
        × IsStuck c'
        × (c'.notices ≡ c.notices)
  unfolding run_rounds
  run_rounds-IsStuck [] c k = (c, refl, k, refl)
  run_rounds-IsStuck (r ∷ rs) c k =
      let rt' : Runtime J = record rt { now = r.before } in
      let c1 : MbusClient J = record c { wakeups = rest_of c.wakeups } in
      let (c', run, stuck, heard) =
        run_rounds-IsStuck rs c1
          (record { state = k.state; idle = woken-IsIdle rt (rest_of c.wakeups) c k.idle }) in
      (c', rw (idle_round rt' r.dial r.poll c k.state k.idle) run, stuck, heard)

  -- Where a program disconnects a connected client, with nothing queued, nothing awaited and no frame
  -- begun by the server, and connects it again before the next run, then any number of rounds, at
  -- whatever times, in which only the wakeup pipe is ready, succeed, and leave the client
  -- connecting over the connection that still stands, without a request for it, and the program
  -- unaware.
  pub reconnected-IsStuck :
      (rs : List Round) (c : MbusClient J)
      → c.state ≡ connected
      → IsIdle c
      → (c' : MbusClient J) × (run_rounds rt rs (reconnected rt c) ≡ done (c', ok))
        × IsStuck c'
        × (c'.notices ≡ (reconnected rt c).notices)
  reconnected-IsStuck rs c e i =
      run_rounds-IsStuck rs (reconnected rt c)
        (record { state = reconnected-connecting rt c e; idle = reconnected-IsIdle rt c e i })
