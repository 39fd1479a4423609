-- ===== src/ClientLib/Answers.antt =====
-- The answers to registrations that mbus_client_handle_result of src/client/client.c takes.
use mbus.Base.{◌≡◌, refl, ap, ◌∙◌, Bool, true, false, some, List, [], ◌∷◌, ◌++◌, All, done}
use mbus.Base.Int.{ℤ, pos, eq_int, minus_one}
use mbus.Json.{get_int_value}
use mbus.Method.{tag_sequence}
use mbus.ClientLib.{
  Runtime, MbusClient, Request, on_register, routine_context, LocalRoutine, success,
  notify_registered,
}
use mbus.ClientLib.Requests.{note, request_get_sequence}
use mbus.ClientLib.Responses.{
  response_status, cstatus, call_back, client_notify_command, command_register_response,
}
use mbus.ClientLib.Reset.{client_reset}
use mbus.ClientLib.Receive.{take_pending, handle_result}

module _ {J : Type 0} (rt : Runtime J) where
  abbrev pub is_accepted : J → Bool
  is_accepted json = eq_int (response_status rt (some json)) (pos 0)

  -- The number of a result, and whether a request has it.
  abbrev pub number_of : J → ℤ
  number_of json = get_int_value rt.cj (some json) tag_sequence minus_one

  abbrev pub has_number : ℤ → Request J → Bool
  has_number n r = eq_int (request_get_sequence rt r) n

  take_pending-first :
      (front : List (Request J)) (r : Request J) (back : List (Request J)) (n : ℤ)
      → All (λ k. has_number n k ≡ false) front
      → has_number n r ≡ true
      → take_pending rt (front ++ (r ∷ back)) n ≡ some (r, front ++ back)
  unfolding take_pending
  take_pending-first [] r back n none_before hit = rw hit refl
  take_pending-first (k ∷ front) r back n (miss, none_before) hit =
      rw (miss, take_pending-first front r back n none_before hit) refl

  -- Where the first of the waiting commands with the number of an answer is a registration, and the
  -- server has accepted it, that command is taken out of its place, the others keep their order,
  -- its routine is the last of the client's, and the program hears of the success; nothing else
  -- changes.
  pub handle_result-registered :
      (json : J) (c : MbusClient J) (front : List (Request J)) (r : Request J)
      (back : List (Request J)) (x : LocalRoutine)
      → c.pendings ≡ front ++ (r ∷ back)
      → All (λ k. has_number (number_of json) k ≡ false) front
      → has_number (number_of json) r ≡ true
      → r.callback ≡ on_register
      → r.context ≡ routine_context x
      → is_accepted json ≡ true
      → handle_result rt c json
        ≡ done (record c {
          pendings = front ++ back;
          routines = c.routines ++ (x ∷ []);
          notices = c.notices ++ (notify_registered (some x.identifier) success ∷ []);
        })
  unfolding handle_result client_notify_command call_back command_register_response cstatus note
  handle_result-registered json c front r back x waits none_before hit b e h =
      let found : take_pending rt c.pendings (number_of json) ≡ some (r, front ++ back) =
        ap (λ w. take_pending rt w (number_of json)) waits
        ∙ take_pending-first front r back (number_of json) none_before hit in
      let taken : MbusClient J = record c { pendings = front ++ back } in
      let answered : handle_result rt c json
          ≡ call_back rt (client_reset rt) r.callback taken r (some json) success =
        rw (found, handle_result) refl in
      answered
      ∙ (ap (λ k. call_back rt (client_reset rt) k taken r (some json) success) b ∙ rw (e, h) refl)
