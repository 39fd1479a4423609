-- ===== src/ClientLib/Wakes.antt =====
-- The timeout of poll in src/client/client.c.
use mbus.Base.{
  ℕ, ◌≤◌, ◌≡◌, refl, sym, subst, true, false, List, [], ◌∷◌, inl, inr, All, ltb, if◌then◌else◌,
  Bool-cases, arith,
}
use mbus.Base.Int.{ℤ, pos, negsuc, le_int, is_neg}
use mbus.ClientLib.{
  MbusClient, Request, ClientState, connecting, connected, disconnecting, disconnected,
  unknown_state, plus_int,
}
use mbus.ClientLib.Timers.{
  run_timeout_default, clock_before, min_int, time_left, until, request_deadline, requests_timeout,
  next_ping_timeout, connecting_timeout, connected_timeout, disconnected_timeout, state_timeout,
  get_run_timeout,
}

-- Between 0 and the default of a second.
abbrev pub InRange : ℤ → Type 0
InRange (pos n) = n ≤ 1000
InRange (negsuc n) = ⊥

min_int-InRange : (a b : ℤ) → InRange a → is_neg b ≡ false → InRange (min_int a b)
unfolding min_int
min_int-InRange a b h k = ground arith

until-InRange :
    (now deadline : ℕ) (past timeout : ℤ)
    → InRange past
    → InRange timeout
    → InRange (until now deadline past timeout)
unfolding until
until-InRange now deadline past timeout h k = elim (Bool-cases (clock_before now deadline)) [
  | inl q ↦ rw q (min_int-InRange timeout (time_left now deadline) k refl)
  | inr q ↦ rw q h
]

module _ {J : Type 0} where
  requests_timeout-InRange :
      (now : ℕ) (rs : List (Request J)) (timeout : ℤ)
      → InRange timeout
      → InRange (requests_timeout now rs timeout)
  unfolding requests_timeout
  requests_timeout-InRange now [] timeout h = h
  requests_timeout-InRange now (r ∷ rs) timeout h =
      requests_timeout-InRange now rs _
        (ground (arith, until-InRange now (request_deadline r) (pos 0) timeout (omega arith) h))

  attempt_timeout-InRange :
      (now : ℕ) (c : MbusClient J) (z : ℤ)
      → is_neg z ≡ false
      → InRange (
          until now (plus_int c.connect_tsms z) (min_int run_timeout_default z) run_timeout_default)
  attempt_timeout-InRange now c z h =
      until-InRange now (plus_int c.connect_tsms z) (min_int run_timeout_default z)
        run_timeout_default (min_int-InRange run_timeout_default z (omega arith) h) (omega arith)

  next_ping_timeout-InRange : (now : ℕ) (c : MbusClient J) → InRange (next_ping_timeout now c)
  unfolding next_ping_timeout
  next_ping_timeout-InRange now c = ground (
    arith,
    until-InRange now (plus_int c.ping_send_tsms c.ping_interval) (pos 0) run_timeout_default
        (omega arith) (omega arith),
  )

  connected_timeout-InRange : (now : ℕ) (c : MbusClient J) → InRange (connected_timeout now c)
  unfolding connected_timeout
  connected_timeout-InRange now c =
      requests_timeout-InRange now c.pendings
        (requests_timeout now c.requests (next_ping_timeout now c))
        (requests_timeout-InRange now c.requests (next_ping_timeout now c)
          (next_ping_timeout-InRange now c))

  state_timeout-InRange :
      (st : ClientState) (now : ℕ) (c : MbusClient J)
      → is_neg c.options.connect_interval ≡ false
      → is_neg c.options.connect_timeout ≡ false
      → InRange (state_timeout st now c)
  unfolding state_timeout connecting_timeout disconnected_timeout
  state_timeout-InRange connecting now c h k = ground (
    arith,
    attempt_timeout-InRange now c c.options.connect_interval h,
    attempt_timeout-InRange now c c.options.connect_timeout k,
  )
  state_timeout-InRange connected now c h k = connected_timeout-InRange now c
  state_timeout-InRange disconnecting now c h k = omega arith
  state_timeout-InRange disconnected now c h k = ground (
    arith,
    until-InRange now (plus_int c.connect_tsms c.options.connect_interval) run_timeout_default
        run_timeout_default (omega arith) (omega arith),
  )
  state_timeout-InRange unknown_state now c h k = omega arith

  get_run_timeout-InRange :
      (now : ℕ) (c : MbusClient J)
      → is_neg c.options.connect_interval ≡ false
      → is_neg c.options.connect_timeout ≡ false
      → InRange (get_run_timeout now c)
  unfolding get_run_timeout
  get_run_timeout-InRange now c h k = ground (arith, state_timeout-InRange c.state now c h k)

le_int_trans : (a b c : ℤ) → le_int a b ≡ true → le_int b c ≡ true → le_int a c ≡ true
le_int_trans a b c h k = ground arith

until-le :
    (now deadline : ℕ) (timeout : ℤ)
    → InRange timeout
    → le_int (until now deadline (pos 0) timeout) timeout ≡ true
unfolding until min_int
until-le now deadline timeout h = ground arith

-- The time that is left for a request, 0 where its deadline is past.
abbrev pub time_for : {J : Type 0} → ℕ → Request J → ℤ
time_for now r =
    if clock_before now (request_deadline r) then time_left now (request_deadline r) else pos 0

until-time :
    {J : Type 0} (now : ℕ) (r : Request J) (timeout : ℤ)
    → le_int (until now (request_deadline r) (pos 0) timeout) (time_for now r) ≡ true
unfolding until min_int time_left
until-time now r timeout = ground arith

module _ {J : Type 0} where
  requests_timeout-le :
      (now : ℕ) (rs : List (Request J)) (timeout : ℤ)
      → InRange timeout
      → le_int (requests_timeout now rs timeout) timeout ≡ true
  unfolding requests_timeout
  requests_timeout-le now [] timeout h = ground arith
  requests_timeout-le now (r ∷ rs) timeout h =
      let next =
        if is_neg r.timeout then timeout else until now (request_deadline r) (pos 0) timeout in
      let in_range : InRange next =
        ground (arith, until-InRange now (request_deadline r) (pos 0) timeout (omega arith) h) in
      let below : le_int next timeout ≡ true =
        ground (arith, until-le now (request_deadline r) timeout h) in
      le_int_trans (requests_timeout now rs next) next timeout
        (requests_timeout-le now rs next in_range) below

  abbrev pub WakesFor : ℕ → ℤ → Request J → Type 0
  WakesFor now timeout r = le_int timeout (time_for now r) ≡ true

  requests_timeout-WakesFor :
      (now : ℕ) (rs : List (Request J)) (timeout : ℤ)
      → InRange timeout
      → All (λ r. is_neg r.timeout ≡ false) rs
      → All (WakesFor now (requests_timeout now rs timeout)) rs
  unfolding requests_timeout
  requests_timeout-WakesFor now [] timeout h n = tt
  requests_timeout-WakesFor now (r ∷ rs) timeout h n =
      let next = until now (request_deadline r) (pos 0) timeout in
      let in_range = until-InRange now (request_deadline r) (pos 0) timeout (omega arith) h in
      let e : requests_timeout now (r ∷ rs) timeout ≡ requests_timeout now rs next = rw n.0 refl in
      subst (λ t. All (WakesFor now t) (r ∷ rs)) (sym e)
        (
          le_int_trans (requests_timeout now rs next) next (time_for now r)
              (requests_timeout-le now rs next in_range) (until-time now r timeout),
          requests_timeout-WakesFor now rs next in_range n.1,
        )

  WakesFor-le :
      (now : ℕ) (a b : ℤ) (rs : List (Request J))
      → le_int a b ≡ true
      → All (WakesFor now b) rs
      → All (WakesFor now a) rs
  WakesFor-le now a b [] h k = tt
  WakesFor-le now a b (r ∷ rs) h k =
      (le_int_trans a b (time_for now r) h k.0, WakesFor-le now a b rs h k.1)

  connected_timeout-WakesFor :
      (now : ℕ) (c : MbusClient J)
      → All (λ r. is_neg r.timeout ≡ false) c.requests
      → All (λ r. is_neg r.timeout ≡ false) c.pendings
      → All (WakesFor now (connected_timeout now c)) c.requests
        × All (WakesFor now (connected_timeout now c)) c.pendings
  unfolding connected_timeout
  connected_timeout-WakesFor now c h k =
      let timeout = next_ping_timeout now c in
      let first = requests_timeout now c.requests timeout in
      let in_range = next_ping_timeout-InRange now c in
      let first_range = requests_timeout-InRange now c.requests timeout in_range in
      (
        WakesFor-le now (requests_timeout now c.pendings first) first c.requests
            (requests_timeout-le now c.pendings first first_range)
            (requests_timeout-WakesFor now c.requests timeout in_range h),
        requests_timeout-WakesFor now c.pendings first first_range k,
      )

  -- Whether the requests of both queues are woken up for.
  abbrev pub WakesForAll : ℕ → ℤ → MbusClient J → Type 0
  WakesForAll now timeout c =
      All (WakesFor now timeout) c.requests × All (WakesFor now timeout) c.pendings

  run_timeout-WakesForAll :
      (now : ℕ) (c : MbusClient J)
      → All (λ r. is_neg r.timeout ≡ false) c.requests
      → All (λ r. is_neg r.timeout ≡ false) c.pendings
      → c.state ≡ connected
      → WakesForAll now (get_run_timeout now c) c
  unfolding get_run_timeout state_timeout
  run_timeout-WakesForAll now c h k e =
      let w = connected_timeout-WakesFor now c h k in
      let zero_first : le_int (pos 0) (connected_timeout now c) ≡ true =
        ground (arith, connected_timeout-InRange now c) in
      elim (Bool-cases (ltb 0 c.incoming.length)) [
        | inl q ↦ rw q (
          WakesFor-le now (pos 0) (connected_timeout now c) c.requests zero_first w.0,
          WakesFor-le now (pos 0) (connected_timeout now c) c.pendings zero_first w.1,
        )
        | inr q ↦ rw q (subst (λ st. WakesForAll now (state_timeout st now c) c) (sym e) w)
      ]

  -- The time that a round waits for its descriptors, on a client whose connect interval and connect
  -- timeout are not negative, is between 0 and 1000 milliseconds; on a connected one it is not longer
  -- than the time that is left for any request with a timeout, 0 if that is over.
  pub get_run_timeout-IsTimely :
      (now : ℕ) (c : MbusClient J)
      → is_neg c.options.connect_interval ≡ false
      → is_neg c.options.connect_timeout ≡ false
      → All (λ r. is_neg r.timeout ≡ false) c.requests
      → All (λ r. is_neg r.timeout ≡ false) c.pendings
      → InRange (get_run_timeout now c)
        × (c.state ≡ connected → WakesForAll now (get_run_timeout now c) c)
  get_run_timeout-IsTimely now c i t h k =
      (get_run_timeout-InRange now c i t, run_timeout-WakesForAll now c h k)
