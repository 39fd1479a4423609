-- ===== src/ClientLib/Invariant/Receiving.antt =====
-- The messages that come in keep the invariant of a client of src/client/client.c.
use mbus.Base.{
  ℕ, zero, suc, subst, Bool, true, false, Option, none, some, List, [], ◌∷◌, inl, inr, All, String,
  str_eq, ltb, Bool-cases, Option-cases, Exec, Rc, ok, fail, arith, ◌+◌,
}
use mbus.Base.Int.{ℤ, pos, eq_int, minus_one}
use mbus.Buffer.{Buffer, shift, u32}
use mbus.Frame.{Frame, incomplete, undecodable, message, next_frame}
use mbus.Json.{get_string_value, get_int_value}
use mbus.Method.{type_command, type_event, type_result, tag_type, tag_sequence}
use mbus.Server.{server_identifier}
use mbus.ClientLib.{Runtime, MbusClient, Request, on_nothing, no_context, success, notify_routine}
use mbus.ClientLib.Requests.{note, request_get_sequence}
use mbus.ClientLib.Commands.{client_command}
use mbus.ClientLib.Reset.{client_reset}
use mbus.ClientLib.Receive.{
  take_pending, handle_result, message_sender, take_pong, client_handle_event, run_routine,
  routine_callback, result_payload, client_handle_command, handle_message, handle_text,
  handle_shifted, take_frame, go_on, incoming_loop, handle_incoming, behind_found,
}
use mbus.ClientLib.Invariant.{
  Holds, bind_Holds, any_Holds, if_Holds, IsWell, Sound, pendings-Sound,
  client_notify_command-Sound,
}
use mbus.ClientLib.Invariant.Resets.{client_reset-Sound}
use mbus.ClientLib.Invariant.Calls.{command_with_options-Sound}

module _ {J : Type 0} (rt : Runtime J) where
  -- With a return code, and with what else a function returns.
  abbrev pub SoundRc : MbusClient J × Rc → Type 0
  SoundRc r = Sound rt.cj r.0

  abbrev pub SoundMore : MbusClient J × Rc × Bool → Type 0
  SoundMore r = Sound rt.cj r.0

  abbrev Rest : Option (Request J × List (Request J)) → Type 0
  Rest none = Unit
  Rest (some (r, rs)) = IsWell rt.cj r × All (IsWell rt.cj) rs

  behind_found-Rest :
      (r : Request J) (o : Option (Request J × List (Request J)))
      → IsWell rt.cj r
      → Rest o
      → Rest (behind_found rt r o)
  behind_found-Rest r none w h = tt
  behind_found-Rest r (some (x, xs)) w h = (h.0, (w, h.1))

  take_pending-Rest :
      (rs : List (Request J)) (n : ℤ) → All (IsWell rt.cj) rs → Rest (take_pending rt rs n)
  unfolding take_pending
  take_pending-Rest [] n h = tt
  take_pending-Rest (r ∷ rs) n h = elim (Bool-cases (eq_int (request_get_sequence rt r) n)) [
    | inl q ↦ rw q h
    | inr q ↦ rw q (behind_found-Rest r (take_pending rt rs n) h.0 (take_pending-Rest rs n h.1))
  ]

  handle_result-Sound :
      (c : MbusClient J) (json : J) → Sound rt.cj c → Holds (Sound rt.cj) (handle_result rt c json)
  unfolding handle_result
  handle_result-Sound c json s =
      let n = get_int_value rt.cj (some json) tag_sequence minus_one in
      elim (Option-cases (take_pending rt c.pendings n)) [
        | inl e ↦ rw (e, handle_result) s
        | inr ((r, others), e) ↦
            rw (e, handle_result)
              (client_notify_command-Sound rt (client_reset rt) (client_reset-Sound rt)
                (record c { pendings = others }) r (some json) success
                (pendings-Sound rt c.state c.sequence c.requests c.pendings others
                  (subst Rest e (take_pending-Rest c.pendings n s.pendings)).1 s))
      ]

  client_handle_event-Sound :
      (c : MbusClient J) (json : J) → Sound rt.cj c → SoundRc (client_handle_event rt c json)
  unfolding client_handle_event take_pong note
  client_handle_event-Sound c json s = elim (Option-cases (message_sender rt json)) [
    | inl e ↦ rw (e, client_handle_event) s
    | inr ((source, identifier), e) ↦ rw (e, client_handle_event) (ground arith)
  ]

  run_routine-Sound :
      (c : MbusClient J) (json : J) (source identifier : String)
      → Sound rt.cj c
      → SoundRc (run_routine rt c json source identifier)
  unfolding run_routine client_command note
  run_routine-Sound c json source identifier s =
      let callback = routine_callback c.routines identifier in
      command_with_options-Sound rt (note c (notify_routine callback json))
        (record {
          destination = some server_identifier;
          command = some "command.result";
          payload = some (result_payload rt json source identifier (rt.serve callback json));
          callback = on_nothing;
          context = no_context;
          timeout = pos 0;
        })
        tt s

  client_handle_command-Sound :
      (c : MbusClient J) (json : J) → Sound rt.cj c → SoundRc (client_handle_command rt c json)
  unfolding client_handle_command take_pong
  client_handle_command-Sound c json s = elim (Option-cases (message_sender rt json)) [
    | inl e ↦ rw (e, client_handle_command) s
    | inr ((source, identifier), e) ↦
        rw (e, client_handle_command) (ground (arith, run_routine-Sound c json source identifier s))
  ]

  handle_message-Sound :
      (c : MbusClient J) (json : J) → Sound rt.cj c → Holds SoundRc (handle_message rt c json)
  unfolding handle_message
  handle_message-Sound c json s =
      elim (Option-cases (get_string_value rt.cj (some json) tag_type none)) [
        | inl e ↦ rw (e, handle_message) s
        | inr (type, e) ↦
            rw (e, handle_message)
              (if_Holds SoundRc (str_eq type type_result) _ _
                (bind_Holds (Sound rt.cj) SoundRc (handle_result rt c json) _
                  (handle_result-Sound c json s) (λ c' s'. s'))
                (if_Holds SoundRc (str_eq type type_event) _ _ (client_handle_event-Sound c json s)
                  (if_Holds SoundRc (str_eq type type_command) _ _
                    (client_handle_command-Sound c json s) s)))
      ]

  handle_text-Sound :
      (c : MbusClient J) (text : List ℕ) → Sound rt.cj c → Holds SoundRc (handle_text rt c text)
  unfolding handle_text
  handle_text-Sound c text s = elim (Option-cases (rt.cj.parse text)) [
    | inl e ↦ rw (e, handle_text) s
    | inr (json, e) ↦ rw (e, handle_text) (handle_message-Sound c json s)
  ]

  handle_shifted-Sound :
      (c : MbusClient J) (text : List ℕ) (r : Buffer × Rc)
      → Sound rt.cj c
      → Holds SoundMore (handle_shifted rt c text r)
  unfolding handle_shifted
  handle_shifted-Sound c text (b, fail) s = s
  handle_shifted-Sound c text (b, ok) s =
      bind_Holds SoundRc SoundMore (handle_text rt (record c { incoming = b }) text) _
        (handle_text-Sound (record c { incoming = b }) text s) (λ h s'. s')

  take_frame-Sound :
      (c : MbusClient J) (f : Frame) → Sound rt.cj c → Holds SoundMore (take_frame rt c f)
  unfolding take_frame
  take_frame-Sound c incomplete s = s
  take_frame-Sound c undecodable s = s
  take_frame-Sound c (message text n) s =
      bind_Holds (λ _. Unit) SoundMore (shift c.incoming (u32 (4 + n))) _
        (any_Holds (shift c.incoming (u32 (4 + n)))) (λ r _. handle_shifted-Sound c text r s)

  go_on-Sound :
      (next : MbusClient J → Exec (MbusClient J × Rc)) (r : MbusClient J × Rc × Bool)
      → ((c : MbusClient J) → Sound rt.cj c → Holds SoundRc (next c))
      → SoundMore r
      → Holds SoundRc (go_on rt next r)
  unfolding go_on
  go_on-Sound next (c, fail, more) k s = s
  go_on-Sound next (c, ok, false) k s = s
  go_on-Sound next (c, ok, true) k s = k c s

  incoming_loop-Sound :
      (fuel : ℕ) (c : MbusClient J) → Sound rt.cj c → Holds SoundRc (incoming_loop rt fuel c)
  unfolding incoming_loop
  incoming_loop-Sound zero c s = tt
  incoming_loop-Sound (suc fuel) c s = if_Holds SoundRc (ltb c.incoming.length 4) _ _ s (
      bind_Holds (λ _. Unit) SoundRc (next_frame rt.zlib c.compression c.incoming) _
        (any_Holds (next_frame rt.zlib c.compression c.incoming))
        (λ f _.
          bind_Holds SoundMore SoundRc (take_frame rt c f) _ (take_frame-Sound c f s)
            (λ r s'. go_on-Sound (λ c'. incoming_loop rt fuel c') r (incoming_loop-Sound fuel) s')))

  pub handle_incoming-Sound :
      (c : MbusClient J) → Sound rt.cj c → Holds SoundRc (handle_incoming rt c)
  unfolding handle_incoming
  handle_incoming-Sound c s = incoming_loop-Sound (suc c.incoming.length) c s
