-- ===== src/ClientLib/Queueing/Operations.antt =====
-- What subscriptions, registrations and publications queue in src/client/client.c.
use mbus.Base.{
  ◌≡◌, refl, Option, none, some, ◌⊎◌, inl, inr, String, Bool-cases, Option-cases, Rc, ok, fail,
}
use mbus.Base.Int.{ℤ}
use mbus.Method.{type_event}
use mbus.Server.{server_identifier}
use mbus.ClientLib.{
  Runtime, MbusClient, Request, Callback, on_subscribe, on_unsubscribe, on_register, on_unregister,
  subscription_context, routine_context, LocalSubscription, LocalRoutine, on_nothing, on_event,
  no_context, Qos, at_most_once, at_least_once, exactly_once, wakeup_publish,
}
use mbus.ClientLib.Requests.{queue_request, request_create, is_connected, or_default}
use mbus.ClientLib.Commands.{CommandOptions, wakeup}
use mbus.ClientLib.Subscribe.{
  SubscribeOptions, UnsubscribeOptions, find_subscription, source_or_all, subscription_command,
  subscribe_to, unsubscribe_from, subscribe_with_options, unsubscribe_with_options,
}
use mbus.ClientLib.Register.{
  RegisterOptions, UnregisterOptions, find_routine, routine_command, register_command,
  unregister_command, register_with_options, unregister_with_options,
}
use mbus.ClientLib.Publish.{
  destination_or_subscribers, event_payload, PublishOptions, publish_to, publish_with_options,
}
use mbus.ClientLib.Queueing.{IsNew, request_create-IsNew, Queues, command_with_options-Queues}

-- The callbacks of an event's request.
abbrev pub Quiet : Callback → Type 0
Quiet b = (b ≡ on_nothing) ⊎ (b ≡ on_event)

module _ {J : Type 0} (rt : Runtime J) where
  subscribe_to-Queues :
      (c : MbusClient J) (o : SubscribeOptions) (source event : String)
      → let s : LocalSubscription = record {
        source = source;
        identifier = event;
        callback = o.callback;
        context = o.context;
      } in
        Queues rt c on_subscribe (subscription_context s) (subscribe_to rt c o source event)
  unfolding subscribe_to subscription_command
  subscribe_to-Queues c o source event =
      elim (Option-cases (find_subscription c.subscriptions source event)) [
        | inr (s, e) ↦ inl (rw (e, subscribe_to) refl)
        | inl n ↦ rw (n, subscribe_to) (command_with_options-Queues rt c _)
      ]

  register_command-Queues :
      (c : MbusClient J) (o : RegisterOptions) (command : String)
      → let r : LocalRoutine = record {
        identifier = command;
        callback = o.callback;
        context = o.context;
      } in
        Queues rt c on_register (routine_context r) (register_command rt c o command)
  unfolding register_command routine_command
  register_command-Queues c o command = elim (Option-cases (find_routine c.routines command)) [
    | inr (s, e) ↦ inl (rw (e, register_command) refl)
    | inl n ↦ rw (n, register_command) (command_with_options-Queues rt c _)
  ]

  unsubscribe_from-Queues :
      (c : MbusClient J) (o : UnsubscribeOptions) (source event : String)
      → (s : LocalSubscription) × Queues rt c on_unsubscribe
          (subscription_context s)
          (unsubscribe_from rt c o source event)
  unfolding unsubscribe_from subscription_command
  unsubscribe_from-Queues c o source event =
      elim (Option-cases (find_subscription c.subscriptions source event)) [
        | inl n ↦ (
          record { source = source; identifier = event; callback = none; context = 0 },
          inl (rw (n, unsubscribe_from) refl),
        )
        | inr (s, e) ↦ (s, rw (e, unsubscribe_from) (command_with_options-Queues rt c _))
      ]

  unregister_command-Queues :
      (c : MbusClient J) (o : UnregisterOptions) (command : String)
      → (r : LocalRoutine) × Queues rt c on_unregister
          (routine_context r)
          (unregister_command rt c o command)
  unfolding unregister_command routine_command
  unregister_command-Queues c o command = elim (Option-cases (find_routine c.routines command)) [
    | inl n ↦ (
      record { identifier = command; callback = none; context = 0 },
      inl (rw (n, unregister_command) refl),
    )
    | inr (r, e) ↦ (r, rw (e, unregister_command) (command_with_options-Queues rt c _))
  ]

  -- A subscription that a client has is refused, and another one queues its command.
  pub subscribe-Queues :
      (c : MbusClient J) (o : SubscribeOptions)
      → (s : LocalSubscription) × Queues rt c on_subscribe
          (subscription_context s)
          (subscribe_with_options rt c o)
  unfolding subscribe_with_options
  subscribe-Queues c o =
      let some_subscription : LocalSubscription = record {
        source = "";
        identifier = "";
        callback = none;
        context = 0;
      } in
      elim (Bool-cases (is_connected c.state)) [
        | inr q ↦ (some_subscription, inl (rw q refl))
        | inl q ↦ elim (Option-cases o.event) [
          | inl n ↦ (some_subscription, inl (rw (q, n) refl))
          | inr (event, e) ↦ (
            record {
              source = source_or_all o.source;
              identifier = event;
              callback = o.callback;
              context = o.context;
            },
            rw (q, e) (subscribe_to-Queues c o (source_or_all o.source) event),
          )
        ]
      ]

  pub unsubscribe-Queues :
      (c : MbusClient J) (o : UnsubscribeOptions)
      → (s : LocalSubscription) × Queues rt c on_unsubscribe
          (subscription_context s)
          (unsubscribe_with_options rt c o)
  unfolding unsubscribe_with_options
  unsubscribe-Queues c o =
      let some_subscription : LocalSubscription = record {
        source = "";
        identifier = "";
        callback = none;
        context = 0;
      } in
      elim (Bool-cases (is_connected c.state)) [
        | inr q ↦ (some_subscription, inl (rw q refl))
        | inl q ↦ elim (Option-cases o.event) [
          | inl n ↦ (some_subscription, inl (rw (q, n) refl))
          | inr (event, e) ↦ rw (q, e) (unsubscribe_from-Queues c o (source_or_all o.source) event)
        ]
      ]

  pub register-Queues :
      (c : MbusClient J) (o : RegisterOptions)
      → (r : LocalRoutine) × Queues rt c on_register
          (routine_context r)
          (register_with_options rt c o)
  unfolding register_with_options
  register-Queues c o =
      let some_routine : LocalRoutine = record { identifier = ""; callback = none; context = 0 } in
      elim (Bool-cases (is_connected c.state)) [
        | inr q ↦ (some_routine, inl (rw q refl))
        | inl q ↦ elim (Option-cases o.command) [
          | inl n ↦ (some_routine, inl (rw (q, n) refl))
          | inr (command, e) ↦ (
            record { identifier = command; callback = o.callback; context = o.context },
            rw (q, e) (register_command-Queues c o command),
          )
        ]
      ]

  pub unregister-Queues :
      (c : MbusClient J) (o : UnregisterOptions)
      → (r : LocalRoutine) × Queues rt c on_unregister
          (routine_context r)
          (unregister_with_options rt c o)
  unfolding unregister_with_options
  unregister-Queues c o =
      let some_routine : LocalRoutine = record { identifier = ""; callback = none; context = 0 } in
      elim (Bool-cases (is_connected c.state)) [
        | inr q ↦ (some_routine, inl (rw q refl))
        | inl q ↦ elim (Option-cases o.command) [
          | inl n ↦ (some_routine, inl (rw (q, n) refl))
          | inr (command, e) ↦ rw (q, e) (unregister_command-Queues c o command)
        ]
      ]

  -- A publication fails and nothing happens, or it succeeds: the loop is woken up, and one request
  -- at most is queued.
  abbrev pub Publishes : MbusClient J → MbusClient J × Rc → Type 0
  Publishes c result =
      (result ≡ (c, fail))
      ⊎ ((result ≡ (wakeup c wakeup_publish, ok))
          ⊎ ((r : Request J) × IsNew rt c r
              × Quiet r.callback
              × (result ≡ (wakeup (queue_request c r) wakeup_publish, ok))))

  publish_to-Publishes :
      (c : MbusClient J) (qos : Qos) (destination event : String) (payload : Option J) (timeout : ℤ)
      → Publishes c (publish_to rt c qos destination event payload timeout)
  unfolding publish_to
  publish_to-Publishes c at_most_once destination event payload timeout =
      elim (Option-cases (
        request_create rt type_event destination event c.sequence payload on_nothing no_context
          timeout)) [
            | inl n ↦ inl (rw (n, publish_to) refl)
            | inr (r, e) ↦
                let (n, b, _, _) =
                  request_create-IsNew rt type_event destination event c payload on_nothing
                    no_context timeout r e in
                inr (inr (r, n, inl b, rw (e, publish_to) refl))
          ]
  publish_to-Publishes c at_least_once destination event payload timeout =
      let options : CommandOptions J = record {
        destination = some server_identifier;
        command = some "command.event";
        payload = some (event_payload rt destination event payload);
        callback = on_event;
        context = no_context;
        timeout = timeout;
      } in
      elim (command_with_options-Queues rt c options) [
        | inl refused ↦ inr (inl (rw refused refl))
        | inr (r, n, b, _, e) ↦ inr (inr (r, n, inr b, rw e refl))
      ]
  publish_to-Publishes c exactly_once destination event payload timeout = inl refl

  pub publish-Publishes :
      (c : MbusClient J) (o : PublishOptions J) → Publishes c (publish_with_options rt c o)
  unfolding publish_with_options
  publish-Publishes c o = elim (Bool-cases (is_connected c.state)) [
    | inr q ↦ inl (rw q refl)
    | inl q ↦ elim (Option-cases o.event) [
      | inl n ↦ inl (rw (q, n) refl)
      | inr (event, e) ↦
          rw (q, e)
            (publish_to-Publishes c o.qos (destination_or_subscribers o.destination) event o.payload
              (or_default o.timeout c.options.publish_timeout))
    ]
  ]
