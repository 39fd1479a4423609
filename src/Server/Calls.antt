-- ===== src/Server/Calls.antt =====
-- Calls between clients: server_handle_command_call hands a request to the client that registered
-- the command, server_handle_command_result its answer to the caller that waits.
pub mod Matching
use mbus.Base.{
  ℕ, Bool, true, false, ◌&&◌, Option, none, some, List, [], ◌∷◌, String, str_eq, if◌then◌else◌,
  Exec, done, fault, ◌>>=◌, Rc, ok, fail,
}
use mbus.Base.Int.{ℤ, pos, minus_one, le_int, eq_int}
use mbus.Json.{CJson, codes, get_object, get_int_value}
use mbus.Method.{
  Method, type_command, sequence_start, sequence_end, tag_destination, tag_identifier, tag_sequence,
  tag_status, tag_payload, request_destination, request_identifier, request_sequence,
  request_payload, set_result_code, set_result_payload, create_response,
}
use mbus.Client.{Client, has_command, client_push_request, client_push_result}
use mbus.Server.{Server, Env, is_named, strcmp, find_client_by_identifier, source_of, put_client}
use mbus.Server.Commands.{Handled, argument}

module _ {J : Type 0} (e : Env J) where
  open e use {cj}

  unfoldable pub push_call : Server J → Method J → Client J → Option (Method J) → Handled J
  push_call s m callee none = done (s, m, fail)
  push_call s m callee (some request) =
      done (record s { clients = put_client (client_push_request callee request) s.clients }, m, ok)

  unfoldable pub call_on : Server J → Method J → String → Option (Client J) → Handled J
  unfolding push_call
  call_on s m identifier none = done (s, m, fail)
  call_on s m identifier (some callee) =
      if has_command callee.commands identifier
      then (source_of s.clients m.source >>= λ caller. push_call s m callee (
          create_response cj type_command caller.identifier (some identifier)
            (request_sequence cj m) (request_payload cj m)))
      else done (s, m, fail)

  -- strcmp of NULL is a fault; a request that was accepted has both names.
  unfoldable pub call : Server J → Method J → Option String → Option String → Handled J
  unfolding call_on
  call s m none identifier = fault
  call s m (some destination) none = fault
  call s m (some destination) (some identifier) =
      call_on s m identifier (find_client_by_identifier s.clients destination)

  unfoldable pub handle_command_call : Server J → Method J → Handled J
  unfolding call
  handle_command_call s m = call s m (request_destination cj m) (request_identifier cj m)

  -- The three tests on a waiting method.
  unfoldable pub answers : Method J → ℤ → String → String → Exec Bool
  answers wait sequence source identifier =
      if eq_int sequence (request_sequence cj wait)
      then (strcmp (request_destination cj wait) source >>= λ to.
          if to then strcmp (request_identifier cj wait) identifier else done false)
      else done false

  unfoldable pub put_back :
      Method J → Option (Method J × List (Method J)) → Option (Method J × List (Method J))
  put_back w none = none
  put_back w (some (found, others)) = some (found, w ∷ others)

  -- The first waiting method that the answer fits, and the others.
  unfoldable pub take_wait :
      List (Method J) → ℤ → String → String → Exec (Option (Method J × List (Method J)))
  unfolding answers put_back
  take_wait [] sequence source identifier = done none
  take_wait (w ∷ ws) sequence source identifier = answers w sequence source identifier >>= λ fits.
      if fits
      then done (some (w, ws))
      else (take_wait ws sequence source identifier >>= λ r. done (put_back w r))

  unfoldable pub finish : Method J → ℤ → Option J → Method J
  finish wait rc payload = set_result_payload cj (set_result_code cj wait rc) payload

  unfoldable pub move_wait :
      Client J → ℤ → Option J → Option (Method J × List (Method J)) → Client J
  unfolding finish
  move_wait c rc payload none = c
  move_wait c rc payload (some (wait, others)) =
      client_push_result (record c { waits = others }) (finish wait rc payload)

  unfoldable pub resolve : Client J → ℤ → String → String → ℤ → Option J → Exec (Client J)
  unfolding take_wait move_wait
  resolve c sequence source identifier rc payload =
      take_wait c.waits sequence source identifier >>= λ r. done (move_wait c rc payload r)

  -- The loop over the clients ends behind the first of that name.
  unfoldable pub resolve_named :
      List (Client J) → String → ℤ → String → String → ℤ → Option J → Exec (List (Client J))
  unfolding resolve
  resolve_named [] destination sequence source identifier rc payload = done []
  resolve_named (c ∷ cs) destination sequence source identifier rc payload =
      if is_named c.identifier destination
      then (resolve c sequence source identifier rc payload >>= λ c'. done (c' ∷ cs))
      else (resolve_named cs destination sequence source identifier rc payload >>= λ cs'.
          done (c ∷ cs'))

  unfoldable pub duplicated : Option J → Option J
  duplicated none = none
  duplicated (some json) = some (cj.duplicate json)

  unfoldable pub answer :
      Server J → Method J → Option String → Option String → Option String → ℤ → Handled J
  unfolding duplicated
  answer s m none destination identifier sequence = done (s, m, fail)
  answer s m (some source) none identifier sequence = done (s, m, fail)
  answer s m (some source) (some destination) none sequence = done (s, m, fail)
  answer s m (some source) (some destination) (some identifier) sequence =
      if le_int (pos sequence_start) sequence
      then if le_int (pos sequence_end) sequence
        then done (s, m, fail)
        else (resolve_named s.clients destination sequence source identifier
              (get_int_value cj (request_payload cj m) tag_status minus_one)
              (duplicated (get_object cj (request_payload cj m) (codes tag_payload)))
            >>= λ cs. done (record s { clients = cs }, m, ok))
      else done (s, m, fail)

  unfoldable pub handle_command_result : Server J → Method J → Handled J
  unfolding answer
  handle_command_result s m = source_of s.clients m.source >>= λ c.
      answer s m c.identifier (argument e m tag_destination) (argument e m tag_identifier)
        (get_int_value cj (request_payload cj m) tag_sequence minus_one)
