-- ===== src/ClientLib/Queueing.antt =====
-- What the calls of a program do to the queue of a client of src/client/client.c.
pub mod Operations
use mbus.Base.{
  ℕ, zero, suc, ◌+◌, ◌≤◌, ◌<◌, ◌≡◌, ◌∙◌, refl, ap, sym, Bool, true, false, ◌||◌, Option, none, some,
  subst, List, [], ◌∷◌, ◌++◌, ◌⊎◌, inl, inr, String, ltb, leb, if◌then◌else◌, Bool-cases,
  Option-cases, All, All-append, Rc, ok, fail, arith,
}
use mbus.Base.Int.{ℤ, pos, is_neg}
use mbus.Method.{sequence_start, sequence_end, type_command, type_event}
use mbus.Server.{server_identifier}
use mbus.ClientLib.{
  Runtime, MbusClient, Request, Callback, on_subscribe, on_unsubscribe, on_register, on_unregister,
  Context, subscription_context, routine_context, LocalSubscription, LocalRoutine, ClientState,
  connected, ClientOptions, on_nothing, on_event, no_context, Qos, at_most_once, at_least_once,
  exactly_once, wakeup_publish,
}
use mbus.ClientLib.Requests.{
  advance_sequence, queue_request, request_create, is_connected, or_default, request_json,
}
use mbus.ClientLib.Commands.{
  CommandOptions, may_command, queue_command, command_with_options, client_command, wakeup,
  client_connect, client_disconnect,
}
use mbus.ClientLib.Subscribe.{
  SubscribeOptions, UnsubscribeOptions, find_subscription, source_or_all, subscription_payload,
  subscription_command, subscribe_to, unsubscribe_from, subscribe_with_options,
  unsubscribe_with_options,
}
use mbus.ClientLib.Register.{
  RegisterOptions, UnregisterOptions, find_routine, routine_command, register_command,
  unregister_command, register_with_options, unregister_with_options,
}
use mbus.ClientLib.Publish.{
  destination_or_subscribers, event_payload, PublishOptions, publish_to, publish_with_options,
}
use mbus.ClientLib.Api.{Call, perform}

module _ {J : Type 0} (rt : Runtime J) where
  -- A new request of the client.
  pub record IsNew (c : MbusClient J) (r : Request J) : Type 0 where
    pub created_at : r.created_at ≡ rt.now
    pub timeout : is_neg r.timeout ≡ false
    pub printed : rt.cj.print_unformatted r.json ≡ some r.string
    pub low : sequence_start ≤ c.sequence
    pub high : c.sequence < sequence_end
    pub numbered :
        (type : String) × (destination : String) × (identifier : String) × (payload : Option J)
        × (r.json ≡ request_json rt type destination identifier c.sequence payload r.timeout)

  made : J → List ℕ → Callback → Context → ℤ → Request J
  made json string callback target timeout = record {
    string = string;
    json = json;
    callback = callback;
    context = target;
    created_at = rt.now;
    timeout = timeout;
  }

  some_inj : {a b : Request J} → some a ≡ some b → a ≡ b
  some_inj h = cc

  -- A request that is created is new, and has the callback, the context and the timeout given.
  pub request_create-IsNew :
      (type destination identifier : String) (c : MbusClient J) (payload : Option J)
      (callback : Callback) (target : Context) (timeout : ℤ) (r : Request J)
      → request_create rt type destination identifier c.sequence payload callback target timeout
        ≡ some r
      → IsNew c r × (r.callback ≡ callback) × (r.context ≡ target) × (r.timeout ≡ timeout)
  unfolding request_create made
  request_create-IsNew type destination identifier c payload callback target timeout r h =
      let json = request_json rt type destination identifier c.sequence payload timeout in
      elim (Bool-cases (ltb c.sequence sequence_start || leb sequence_end c.sequence)) [
        | inl bad ↦ absurd (ground (arith, bad, h))
        | inr good ↦ elim (Bool-cases (is_neg timeout)) [
          | inl neg ↦ absurd (ground (arith, good, neg, h))
          | inr positive ↦ elim (Option-cases (rt.cj.print_unformatted json)) [
            | inl nothing ↦ absurd (ground (arith, good, positive, nothing, h))
            | inr (string, printed) ↦
                subst
                  (λ x.
                    IsNew c x
                    × (x.callback ≡ callback)
                    × (x.context ≡ target)
                    × (x.timeout ≡ timeout))
                  (some_inj {a = made json string callback target timeout}
                    (ground (arith, good, positive, printed, h)))
                  (
                    record {
                      created_at = refl;
                      timeout = positive;
                      printed = printed;
                      low = ground (arith, good);
                      high = ground (arith, good);
                      numbered = (type, destination, identifier, payload, refl);
                    },
                    refl,
                    refl,
                    refl,
                  )
          ]
        ]
      ]

  -- Nothing happens and the call fails, or a new request with the callback and the context goes to
  -- the end of the queue and the call succeeds.
  abbrev pub Queues : MbusClient J → Callback → Context → MbusClient J × Rc → Type 0
  Queues c callback target result =
      (result ≡ (c, fail))
      ⊎ ((r : Request J) × IsNew c r
          × (r.callback ≡ callback)
          × (r.context ≡ target)
          × (result ≡ (queue_request c r, ok)))

  queue_command-Queues :
      (c : MbusClient J) (o : CommandOptions J) (destination command : String)
      → Queues c o.callback o.context (queue_command rt c o destination command)
  unfolding queue_command
  queue_command-Queues c o destination command = elim (Bool-cases (may_command c.state command)) [
    | inr refused ↦ inl (rw refused refl)
    | inl allowed ↦
        elim (Option-cases (
          request_create rt type_command destination command c.sequence o.payload o.callback
            o.context (or_default o.timeout c.options.command_timeout))) [
              | inl nothing ↦ inl (rw (allowed, nothing) refl)
              | inr (r, e) ↦
                  let (n, b, t, _) =
                    request_create-IsNew type_command destination command c o.payload o.callback
                      o.context (or_default o.timeout c.options.command_timeout) r e in
                  inr (r, n, b, t, rw (allowed, e) refl)
            ]
  ]

  pub command_with_options-Queues :
      (c : MbusClient J) (o : CommandOptions J)
      → Queues c o.callback o.context (command_with_options rt c o)
  unfolding command_with_options
  command_with_options-Queues c o = elim (Option-cases o.destination) [
    | inl n ↦ inl (rw n refl)
    | inr (destination, d) ↦ elim (Option-cases o.command) [
      | inl n ↦ inl (rw (d, n) refl)
      | inr (command, e) ↦ rw (d, e) (queue_command-Queues c o destination command)
    ]
  ]
