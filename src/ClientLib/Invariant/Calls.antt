-- ===== src/ClientLib/Invariant/Calls.antt =====
-- The calls of a program keep the invariant of a client of src/client/client.c.
use mbus.Base.{
  ℕ, ◌≤◌, ◌<◌, refl, sym, subst, Option, none, some, List, [], ◌∷◌, inl, inr, All-append, Rc, arith,
}
use mbus.Base.Int.{pos}
use mbus.Method.{sequence_start, sequence_end}
use mbus.ClientLib.{
  Runtime, MbusClient, Request, Callback, Context, on_subscribe, on_register, on_unsubscribe,
  on_unregister, subscription_context, routine_context, user_context,
}
use mbus.ClientLib.Requests.{advance_sequence, queue_request}
use mbus.ClientLib.Commands.{
  CommandOptions, command_with_options, client_command, wakeup, client_connect, client_disconnect,
}
use mbus.ClientLib.Queueing.{IsNew, Queues, command_with_options-Queues}
use mbus.ClientLib.Queueing.Operations.{
  Quiet, subscribe-Queues, unsubscribe-Queues, register-Queues, unregister-Queues,
  publish-Publishes,
}
use mbus.ClientLib.Publish.{PublishOptions, publish_with_options}
use mbus.ClientLib.Subscribe.{
  SubscribeOptions, UnsubscribeOptions, subscribe_with_options, unsubscribe_with_options,
}
use mbus.ClientLib.Register.{
  RegisterOptions, UnregisterOptions, register_with_options, unregister_with_options,
}
use mbus.ClientLib.Api.{
  user_callback, Call, call_connect, call_disconnect, call_set_connect_interval, call_subscribe,
  call_subscribe_with_options, call_unsubscribe, call_unsubscribe_with_options, call_publish,
  call_publish_with_options, call_register, call_register_with_options, call_unregister,
  call_unregister_with_options, call_command, call_command_with_options, perform, perform_all,
  set_connect_interval, subscribe_options_default, unsubscribe_options_default,
  publish_options_default, register_options_default, unregister_options_default,
}
use mbus.ClientLib.Invariant.{Fits, IsWell, Sound}

module _ {J : Type 0} (rt : Runtime J) where
  advance_sequence-low : (n : ℕ) → sequence_start ≤ advance_sequence n
  unfolding advance_sequence
  advance_sequence-low n = ground arith

  advance_sequence-high : (n : ℕ) → n < sequence_end → advance_sequence n < sequence_end
  unfolding advance_sequence
  advance_sequence-high n h = ground arith

  queue_request-Sound :
      (c : MbusClient J) (r : Request J)
      → IsNew rt c r
      → Fits r.callback r.context
      → Sound rt.cj c
      → Sound rt.cj (queue_request c r)
  unfolding queue_request
  queue_request-Sound c r n f s = record {
    known = s.known;
    low = advance_sequence-low c.sequence;
    high = advance_sequence-high c.sequence s.high;
    requests =
        All-append (IsWell rt.cj) c.requests (r ∷ []) s.requests
          (record { fits = f; timeout = n.timeout; printed = n.printed }, tt);
    pendings = s.pendings;
  }

  pub Queues-Sound :
      (c : MbusClient J) (b : Callback) (target : Context) (result : MbusClient J × Rc)
      → Fits b target
      → Sound rt.cj c
      → Queues rt c b target result
      → Sound rt.cj result.0
  Queues-Sound c b target result f s (inl e) = subst (λ x. Sound rt.cj x.0) (sym e) s
  Queues-Sound c b target result f s (inr (r, n, g, h, e)) =
      subst (λ x. Sound rt.cj x.0) (sym e)
        (queue_request-Sound c r n
          (subst (λ b'. Fits b' r.context) (sym g) (subst (λ t. Fits b t) (sym h) f)) s)

  pub command_with_options-Sound :
      (c : MbusClient J) (o : CommandOptions J)
      → Fits o.callback o.context
      → Sound rt.cj c
      → Sound rt.cj (command_with_options rt c o).0
  command_with_options-Sound c o f s =
      Queues-Sound c o.callback o.context _ f s (command_with_options-Queues rt c o)

  Quiet-Fits : (b : Callback) (target : Context) → Quiet b → Fits b target
  Quiet-Fits b target (inl e) = subst (λ x. Fits x target) (sym e) tt
  Quiet-Fits b target (inr e) = subst (λ x. Fits x target) (sym e) tt

  pub publish-Sound :
      (c : MbusClient J) (o : PublishOptions J)
      → Sound rt.cj c
      → Sound rt.cj (publish_with_options rt c o).0
  unfolding wakeup
  publish-Sound c o s = elim (publish-Publishes rt c o) [
    | inl e ↦ subst (λ x. Sound rt.cj x.0) (sym e) s
    | inr (inl e) ↦ subst (λ x. Sound rt.cj x.0) (sym e) s
    | inr (inr (r, n, q, e)) ↦
        subst (λ x. Sound rt.cj x.0) (sym e)
          (queue_request-Sound c r n (Quiet-Fits r.callback r.context q) s)
  ]

  subscribe-Sound :
      (c : MbusClient J) (o : SubscribeOptions)
      → Sound rt.cj c
      → Sound rt.cj (subscribe_with_options rt c o).0
  subscribe-Sound c o s =
      let (x, q) = subscribe-Queues rt c o in
      Queues-Sound c on_subscribe (subscription_context x) _ (x, refl) s q

  unsubscribe-Sound :
      (c : MbusClient J) (o : UnsubscribeOptions)
      → Sound rt.cj c
      → Sound rt.cj (unsubscribe_with_options rt c o).0
  unsubscribe-Sound c o s =
      let (x, q) = unsubscribe-Queues rt c o in
      Queues-Sound c on_unsubscribe (subscription_context x) _ (x, refl) s q

  register-Sound :
      (c : MbusClient J) (o : RegisterOptions)
      → Sound rt.cj c
      → Sound rt.cj (register_with_options rt c o).0
  register-Sound c o s =
      let (x, q) = register-Queues rt c o in
      Queues-Sound c on_register (routine_context x) _ (x, refl) s q

  unregister-Sound :
      (c : MbusClient J) (o : UnregisterOptions)
      → Sound rt.cj c
      → Sound rt.cj (unregister_with_options rt c o).0
  unregister-Sound c o s =
      let (x, q) = unregister-Queues rt c o in
      Queues-Sound c on_unregister (routine_context x) _ (x, refl) s q

  connect-Sound : (c : MbusClient J) → Sound rt.cj c → Sound rt.cj (client_connect c)
  unfolding client_connect wakeup
  connect-Sound c s = ground (arith, s)

  disconnect-Sound : (c : MbusClient J) → Sound rt.cj c → Sound rt.cj (client_disconnect c)
  unfolding client_disconnect wakeup
  disconnect-Sound c s = ground (arith, s)

  user-Fits : (callback : Option ℕ) (n : ℕ) → Fits (user_callback callback) (user_context n)
  user-Fits none n = tt
  user-Fits (some f) n = tt

  pub perform-Sound :
      (call : Call J) (c : MbusClient J) → Sound rt.cj c → Sound rt.cj (perform rt call c).0
  unfolding perform set_connect_interval client_command
  perform-Sound call_connect c s = connect-Sound c s
  perform-Sound call_disconnect c s = disconnect-Sound c s
  perform-Sound (call_set_connect_interval interval) c s = s
  perform-Sound (call_subscribe event) c s = subscribe-Sound c (subscribe_options_default event) s
  perform-Sound (call_subscribe_with_options o) c s = subscribe-Sound c o s
  perform-Sound (call_unsubscribe event) c s =
      unsubscribe-Sound c (unsubscribe_options_default event) s
  perform-Sound (call_unsubscribe_with_options o) c s = unsubscribe-Sound c o s
  perform-Sound (call_publish event payload) c s =
      publish-Sound c (publish_options_default event payload) s
  perform-Sound (call_publish_with_options o) c s = publish-Sound c o s
  perform-Sound (call_register command) c s = register-Sound c (register_options_default command) s
  perform-Sound (call_register_with_options o) c s = register-Sound c o s
  perform-Sound (call_unregister command) c s =
      unregister-Sound c (unregister_options_default command) s
  perform-Sound (call_unregister_with_options o) c s = unregister-Sound c o s
  perform-Sound (call_command destination command payload callback n) c s =
      command_with_options-Sound c
        (record {
          destination = some destination;
          command = some command;
          payload = payload;
          callback = user_callback callback;
          context = user_context n;
          timeout = pos 0;
        })
        (user-Fits callback n) s
  perform-Sound (call_command_with_options destination command payload callback n timeout) c s =
      command_with_options-Sound c
        (record {
          destination = destination;
          command = command;
          payload = payload;
          callback = user_callback callback;
          context = user_context n;
          timeout = timeout;
        })
        (user-Fits callback n) s

  pub perform_all-Sound :
      (calls : List (Call J)) (c : MbusClient J)
      → Sound rt.cj c
      → Sound rt.cj (perform_all rt calls c)
  unfolding perform_all
  perform_all-Sound [] c s = s
  perform_all-Sound (call ∷ calls) c s =
      perform_all-Sound calls (perform rt call c).0 (perform-Sound call c s)
