-- ===== src/Server/Examples/Rounds.antt =====
-- The theorems about requests, pings and the clients' buffers at concrete inputs.
use mbus.Base.{
  ℕ, ◌+◌, ◌≡◌, ◌⊎◌, refl, true, not, ◌&&◌, ◌||◌, none, some, List, [], ◌∷◌, ◌++◌, length, String,
  replicate, length-replicate, length-append, done, Returns, Rc, ok, arith,
}
use mbus.Base.Int.{pos}
use mbus.Buffer.{contents, Buffer, IsValid}
use mbus.Compress.{method_none, compress_data}
use mbus.Clock.{clock_after}
use mbus.Json.{
  codes, get_object, get_string_value, get_int_value, walk, skip_slashes, split_slash, descend,
}
use mbus.Frame.{be32}
use mbus.Frame.Encode.{frame}
use mbus.Frame.Decode.{Restores}
use mbus.Method.{
  Method, type_command, type_event, tag_type, request_string, request_type, type_result,
  tag_sequence, tag_payload, create_request,
}
use mbus.Method.Laws.{IsComplete, create_request-IsComplete}
use mbus.Client.{
  client_create, Client, client_pop_result, client_pop_request, has_subscription,
  client_add_subscription, client_del_subscription,
}
use mbus.Client.Laws.{
  distinct_subscriptions, same_names, client_add_subscription-set, client_del_subscription-set,
}
use mbus.Server.{find_client_by_connection, client_at, is_named}
use mbus.Server.Pings.{deadline}
use mbus.Server.Pings.Missed.{is_watched, check_over, IsSilent, check_over-closes}
use mbus.Server.Receive.{receive_client}
use mbus.Server.Receive.Order.{Carries, AreRequests, IsReceived, receive_client-IsReceived}
use mbus.Server.Outbound.{Chosen, choose_message, prepare_client}
use mbus.Server.Outbound.Order.{pending, IsSent, choose_message-pending, prepare_client-frame}
use mbus.Server.Connections.{connection_establish, callback_connection_receive}
use mbus.Server.Connections.Arrival.{callback_connection_receive-establish}
use mbus.Server.Examples.World.{
  plenty, stranger, Value, text, number, object, no_members, member, find_member, same_codes,
  subscribe_all, cj, plain, env, anna, bert, house,
}

check_over-closes_example : Returns (λ c. c.connection ≡ none) (check_over (20000 ∷ []) anna)
unfolding is_watched IsSilent clock_after deadline
check_over-closes_example =
    check_over-closes (20000 ∷ []) 2 anna 1 refl refl refl (omega arith) (refl, tt) (omega arith)
      (omega arith)

client_add_subscription-set_example :
    ((client_add_subscription anna "anna" "tick").1 ≡ ok)
    × (distinct_subscriptions (client_add_subscription anna "anna" "tick").0.subscriptions ≡ true)
    × ((source event : String)
        → has_subscription (client_add_subscription anna "anna" "tick").0.subscriptions source event
          ≡ same_names "anna" "tick" source event
            || has_subscription anna.subscriptions source event)
unfolding distinct_subscriptions has_subscription
client_add_subscription-set_example = client_add_subscription-set anna "anna" "tick" refl

client_del_subscription-set_example :
    ((client_del_subscription anna "bert" "tick").1 ≡ ok)
    × (distinct_subscriptions (client_del_subscription anna "bert" "tick").0.subscriptions ≡ true)
    × ((source event : String)
        → has_subscription (client_del_subscription anna "bert" "tick").0.subscriptions source event
          ≡ not (same_names "bert" "tick" source event)
            && has_subscription anna.subscriptions source event)
unfolding distinct_subscriptions has_subscription
client_del_subscription-set_example = client_del_subscription-set anna "bert" "tick" refl

-- What is made of the text of `subscribe_all`.
abbrev pub received : Method Value
received = record {
  request = subscribe_all;
  result = some (
      object (
        member (codes tag_type) (text type_result) (
          member (codes tag_sequence) (number (pos 7))
            (member (codes tag_payload) (object no_members) no_members))));
  source = some 1;
}

pub received-made : create_request cj 1 (115 ∷ []) ≡ some received
unfolding create_request get_string_value get_int_value get_object walk skip_slashes split_slash
    descend find_member same_codes
received-made = refl

create_request-IsComplete_example : IsComplete cj received × (received.source ≡ some 1)
create_request-IsComplete_example = create_request-IsComplete cj 1 (115 ∷ []) received received-made

pub received-command :
    (is_named (request_type cj received) type_command
      || is_named (request_type cj received) type_event)
    ≡ true
unfolding request_type get_string_value get_object walk skip_slashes split_slash descend find_member
    same_codes
received-command = refl

abbrev pub bell : ℕ
bell = 7

pub block_of-IsValid :
    (bytes : List ℕ) (pad : ℕ)
    → length bytes + pad ≡ 4096
    → IsValid (record { length = length bytes; size = 4096; block = bytes ++ replicate pad bell })
block_of-IsValid bytes pad h = record {
  within = omega arith;
  allocated = omega (arith, length-append bytes (replicate pad bell), length-replicate pad bell);
  aligned = refl;
  word = omega arith;
}

-- Two requests, and two bytes of the next frame.
abbrev arrived : List ℕ
arrived = 0 ∷ 0 ∷ 0 ∷ 1 ∷ 115 ∷ 0 ∷ 0 ∷ 0 ∷ 1 ∷ 115 ∷ 0 ∷ 0 ∷ []

abbrev talker : Client Value
talker = record anna {
  buffer_in = record { length = 12; size = 4096; block = arrived ++ replicate 4084 bell };
}

pub nothing_compressed : Restores plain
unfolding compress_data
nothing_compressed s c e = absurd (ground (arith, e))

receive_client-IsReceived_example :
    Returns
      (IsReceived env (house []) talker (received ∷ received ∷ []) (0 ∷ 0 ∷ []))
      (receive_client env (house []) talker)
unfolding Carries AreRequests frame be32
receive_client-IsReceived_example =
    receive_client-IsReceived env (house []) talker ((115 ∷ []) ∷ (115 ∷ []) ∷ [])
      (received ∷ received ∷ []) (0 ∷ 0 ∷ []) nothing_compressed
      (block_of-IsValid arrived 4084 refl)
      (
        0 ∷ 0 ∷ 0 ∷ 1 ∷ 115 ∷ [],
        0 ∷ 0 ∷ 0 ∷ 1 ∷ 115 ∷ 0 ∷ 0 ∷ [],
        refl,
        (omega arith, tt),
        omega arith,
        omega arith,
        refl,
        (
          0 ∷ 0 ∷ 0 ∷ 1 ∷ 115 ∷ [],
          0 ∷ 0 ∷ [],
          refl,
          (omega arith, tt),
          omega arith,
          omega arith,
          refl,
          refl,
        ),
      )
      (omega arith)
      (
        received,
        received ∷ [],
        refl,
        received-made,
        received-command,
        (received, [], refl, received-made, received-command, refl),
      )

abbrev busy : Client Value
busy = record anna { requests = received ∷ []; events = received ∷ received ∷ [] }

choose_message-pending_example :
    ((choose_message env busy ≡ none) × (pending env busy ≡ []))
    ⊎ ((k : Chosen Value) × (choose_message env busy ≡ some k)
        × (pending env busy ≡ k.text ∷ pending env k.client))
choose_message-pending_example = choose_message-pending env busy

prepare_client-frame_example :
    (r : Client Value × Rc) × (prepare_client env busy ≡ done r)
    × IsSent env
        (record {
          client = record busy { requests = [] };
          compression = done method_none;
          text = some (104 ∷ 105 ∷ []);
        })
        (0 ∷ 0 ∷ 0 ∷ 2 ∷ 104 ∷ 105 ∷ [])
        r
unfolding choose_message client_pop_result client_pop_request request_string frame be32
prepare_client-frame_example =
    prepare_client-frame env busy 1
      (record {
        client = record busy { requests = [] };
        compression = done method_none;
        text = some (104 ∷ 105 ∷ []);
      })
      method_none (104 ∷ 105 ∷ []) (0 ∷ 0 ∷ 0 ∷ 2 ∷ 104 ∷ 105 ∷ []) (λ n. refl) refl refl refl refl
      (record { within = omega arith; allocated = refl; aligned = refl; word = omega arith })
      (omega arith) refl (omega arith)

callback_connection_receive-establish_example :
    (b : Buffer) × (callback_connection_receive plenty
        (connection_establish (house []) 9 0 40).0
        40
        (1 ∷ 2 ∷ [])
      ≡ done (
        record (house []) {
          clients =
              (anna ∷ bert ∷ stranger ∷ [])
              ++ (record (client_create 9 0 40) { buffer_in = b } ∷ []);
        },
        ok,
      ))
    × IsValid b
    × (contents b ≡ 1 ∷ 2 ∷ [])
unfolding find_client_by_connection client_at
callback_connection_receive-establish_example =
    callback_connection_receive-establish plenty (house []) 9 0 40 (1 ∷ 2 ∷ []) (λ n. refl) refl
      refl (omega arith)
