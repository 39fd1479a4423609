-- ===== src/Server/Outbound.antt =====
-- The part "prepare out buffer" of mbus_server_run_timeout: one message of each connected client
-- goes to its output buffer.
pub mod Order
use mbus.Base.{
  ℕ, Bool, true, false, ◌&&◌, Option, none, some, List, [], ◌∷◌, String, if◌then◌else◌, Exec, done,
  fault, ◌>>=◌, Rc, ok, fail,
}
use mbus.Buffer.{Buffer}
use mbus.Compress.{Compression, method_none}
use mbus.Frame.{push_string}
use mbus.Method.{Method, request_destination, request_identifier, request_string, result_string}
use mbus.Client.{Client, client_pop_request, client_pop_result, client_pop_event}
use mbus.Server.{Server, Env, server_identifier, strcmp}

-- The message chosen: the client without it, the compression, which two strcmp have to find for a
-- result, and the printed text.
pub record Chosen (J : Type 0) : Type 0 where
  pub client : Client J
  pub compression : Exec Compression
  pub text : Option (List ℕ)

module _ {J : Type 0} (e : Env J) where
  open e use {cj, zlib, memory}

  -- The answer to command.create goes out uncompressed: the client learns the method from it.
  unfoldable pub result_compression : Compression → Method J → Exec Compression
  result_compression c m = strcmp (request_destination cj m) server_identifier >>= λ own.
      if own
      then (strcmp (request_identifier cj m) "command.create" >>= λ create.
          done (if create then method_none else c))
      else done c

  unfoldable pub choose_event : Client J → Option (Chosen J)
  choose_event c = elim (client_pop_event c) [
    | none ↦ none
    | some (m, c') ↦
        some (record { client = c'; compression = done c.compression; text = request_string cj m })
  ]

  unfoldable pub choose_request : Client J → Option (Chosen J)
  unfolding choose_event
  choose_request c = elim (client_pop_request c) [
    | none ↦ choose_event c
    | some (m, c') ↦
        some (record { client = c'; compression = done c.compression; text = request_string cj m })
  ]

  -- Results before requests before events.
  unfoldable pub choose_message : Client J → Option (Chosen J)
  unfolding choose_request result_compression
  choose_message c = elim (client_pop_result c) [
    | none ↦ choose_request c
    | some (m, c') ↦ some (record {
      client = c';
      compression = result_compression c.compression m;
      text = result_string cj m;
    })
  ]

  unfoldable pub write_out : Client J → Buffer × Rc → Exec (Client J × Rc)
  write_out c (b, rc) = done (record c { buffer_out = b }, rc)

  unfoldable pub send_chosen : Client J → Compression → Option (List ℕ) → Exec (Client J × Rc)
  unfolding write_out
  send_chosen c compression none = done (c, fail)
  send_chosen c compression (some text) =
      push_string zlib memory c.buffer_out compression text >>= λ r. write_out c r

  unfoldable pub prepare_connected : Client J → Exec (Client J × Rc)
  unfolding send_chosen
  prepare_connected c = elim (choose_message c) [
    | none ↦ done (c, ok)
    | some m ↦ m.compression >>= λ compression. send_chosen m.client compression m.text
  ]

  unfoldable pub prepare_client : Client J → Exec (Client J × Rc)
  unfolding prepare_connected
  prepare_client c = elim c.connection [ none ↦ done (c, ok) | some k ↦ prepare_connected c ]

  -- `goto bail` leaves the loop.
  unfoldable pub prepare_rest :
      (List (Client J) → Exec (List (Client J) × Rc))
      → List (Client J)
      → Client J × Rc
      → Exec (List (Client J) × Rc)
  prepare_rest next cs (c, fail) = done (c ∷ cs, fail)
  prepare_rest next cs (c, ok) = next cs >>= λ r. done (c ∷ r.0, r.1)

  unfoldable pub prepare_out : List (Client J) → Exec (List (Client J) × Rc)
  unfolding prepare_rest
  prepare_out [] = done ([], ok)
  prepare_out (c ∷ cs) = prepare_client c >>= λ r. prepare_rest (λ _. prepare_out cs) cs r
