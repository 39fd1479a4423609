-- ===== src/ClientLib/Examples/Arrivals.antt =====
-- What a client of the library sends to the server, at concrete clients.
use mbus.Base.{refl, [], ◌∷◌, ◌++◌, some, Returns, replicate, arith}
use mbus.Buffer.{IsValid}
use mbus.Json.{get_string_value, get_object, walk, skip_slashes, split_slash, descend}
use mbus.Method.{type_command}
use mbus.Frame.{be32}
use mbus.Frame.Encode.{frame}
use mbus.Client.{Client}
use mbus.Server.Receive.{receive_client}
use mbus.Server.Receive.Order.{AreRequests, IsReceived}
use mbus.Server.Examples.World.{Value, find_member, same_codes, env, house, anna}
use mbus.Server.Examples.Rounds.{
  received, received-made, received-command, bell, block_of-IsValid, nothing_compressed,
}
use mbus.ClientLib.{connected, MbusClient}
use mbus.ClientLib.Requests.{request_get_type}
use mbus.ClientLib.Sending.{Sends, command_first, nothing_queued, Flushes, flush-Flushes}
use mbus.ClientLib.Sending.Arrival.{flush-arrives}
use mbus.ClientLib.Examples.Desk.{rt, desk, status_request, sent_bytes}

abbrev sender : MbusClient Value
sender = desk connected (some 3) (status_request ∷ []) []

sender-IsValid : IsValid sender.outgoing
sender-IsValid = record {
  within = omega arith;
  allocated = refl;
  aligned = refl;
  word = omega arith;
}

sender-Sends : Sends rt sender.compression (status_request ∷ []) sent_bytes (status_request ∷ []) []
unfolding request_get_type get_string_value get_object walk skip_slashes split_slash descend
    find_member same_codes frame be32
sender-Sends =
    command_first status_request [] [] sent_bytes [] [] type_command
      (record {
        framed = refl;
        text = (omega arith, tt);
        short = omega arith;
        short_frame = omega arith;
      })
      refl refl nothing_queued

flush-Flushes_example : Flushes rt sender (status_request ∷ []) sent_bytes (status_request ∷ []) []
flush-Flushes_example =
    flush-Flushes rt (λ n. refl) (status_request ∷ []) sent_bytes (status_request ∷ []) [] sender
      sender-IsValid sender-Sends (omega arith)

-- The server's side of the connection, with the bytes of the frame.
abbrev peer : Client Value
peer = record anna {
  buffer_in = record { length = 5; size = 4096; block = sent_bytes ++ replicate 4091 bell };
}

flush-arrives_example :
    Flushes rt sender (status_request ∷ []) sent_bytes (status_request ∷ []) []
    × Returns
        (IsReceived env (house []) peer (received ∷ []) [])
        (receive_client env (house []) peer)
unfolding AreRequests
flush-arrives_example =
    flush-arrives rt env (house []) peer sender (status_request ∷ []) sent_bytes
      (status_request ∷ []) [] (received ∷ []) refl refl nothing_compressed (λ n. refl)
      sender-IsValid sender-Sends (omega arith) (block_of-IsValid sent_bytes 4091 refl) refl
      (received, [], refl, received-made, received-command, refl)
