-- ===== src/Server/Outbound/Order.antt =====
-- The part "prepare out buffer" of mbus_server_run_timeout of src/server/server.c: the order in which
-- a client's queues are sent.
use mbus.Base.{
  ℕ, ◌+◌, ◌-◌, ◌^◌, ◌≤◌, ◌<◌, ◌≡◌, ◌⊎◌, ◌∙◌, refl, ap, Option, none, some, List, [], ◌∷◌, ◌++◌, map,
  length, Exec, done, Rc, ok, inl, inr,
}
use mbus.Buffer.{Buffer, IsValid, contents}
use mbus.Buffer.Laws.{Available}
use mbus.Compress.{Compression}
use mbus.Frame.Encode.{frame, push_string-frame}
use mbus.Method.{Method, request_string, result_string}
use mbus.Client.{Client, client_pop_request, client_pop_result, client_pop_event}
use mbus.Server.{Env}
use mbus.Server.Outbound.{
  Chosen, choose_event, choose_request, choose_message, write_out, send_chosen, prepare_connected,
  prepare_client,
}

module _ {J : Type 0} (e : Env J) where
  open e use {cj, zlib, memory}

  -- The texts that are still to be sent: the results, then the requests, then the events.
  unfoldable pub pending : Client J → List (Option (List ℕ))
  pending c =
      map (result_string cj) c.results
      ++ (map (request_string cj) c.requests ++ map (request_string cj) c.events)

  abbrev IsNext : Client J → Type 0
  IsNext c =
      ((choose_message e c ≡ none) × (pending c ≡ []))
      ⊎ ((k : Chosen J) × (choose_message e c ≡ some k) × (pending c ≡ k.text ∷ pending k.client))

  queued-IsNext :
      (c : Client J) (results requests events : List (Method J))
      → IsNext (record c { results = results; requests = requests; events = events })
  unfolding pending choose_message choose_request choose_event client_pop_result client_pop_request
      client_pop_event
  queued-IsNext c (m ∷ ms) requests events = inr (_, refl, refl)
  queued-IsNext c [] (m ∷ ms) events = inr (_, refl, refl)
  queued-IsNext c [] [] (m ∷ ms) = inr (_, refl, refl)
  queued-IsNext c [] [] [] = inl (refl, refl)

  -- There is nothing to send, or the message chosen is the first that is pending, and the others
  -- stay pending in their order.
  pub choose_message-pending :
      (c : Client J)
      → ((choose_message e c ≡ none) × (pending c ≡ []))
        ⊎ ((k : Chosen J) × (choose_message e c ≡ some k) × (pending c ≡ k.text ∷ pending k.client))
  choose_message-pending c = queued-IsNext c c.results c.requests c.events

  -- The frame of the text goes behind the bytes of the output buffer, and nothing else changes.
  pub IsSent : Chosen J → List ℕ → Client J × Rc → Type 0
  IsSent k bytes r =
      (b : Buffer) × IsValid b
      × (contents b ≡ contents k.client.buffer_out ++ bytes)
      × (r ≡ (record (k.client) { buffer_out = b }, ok))

  prepare_client-connected :
      (c : Client J) (h : ℕ) → c.connection ≡ some h → prepare_client e c ≡ prepare_connected e c
  unfolding prepare_client
  prepare_client-connected c h q =
      ap
        (λ o. elim o as (λ _. Exec (Client J × Rc)) [
          | none ↦ done (c, ok)
          | some k ↦ prepare_connected e c
        ])
        q

  -- A connected client's next message, if its compression is found and it has a text shorter than
  -- 2 ^ 32 and a frame, goes to
  -- its well-formed output buffer as one frame, and nothing else changes, if memory is available
  -- and the buffer's bytes and the frame stay below the last chunk of a 32-bit size.
  pub prepare_client-frame :
      (c : Client J) (h : ℕ) (k : Chosen J) (compression : Compression) (text bytes : List ℕ)
      → Available memory
      → c.connection ≡ some h
      → choose_message e c ≡ some k
      → k.compression ≡ done compression
      → k.text ≡ some text
      → IsValid k.client.buffer_out
      → length text < 2 ^ 32
      → frame zlib compression text ≡ some bytes
      → k.client.buffer_out.length + length bytes ≤ 2 ^ 32 - 4096
      → (r : Client J × Rc) × (prepare_client e c ≡ done r) × IsSent k bytes r
  unfolding prepare_connected send_chosen write_out IsSent
  prepare_client-frame c h k compression text bytes can connected chosen found printed v small
        framed fits =
      let (b, pushed, w, all) =
        push_string-frame memory can zlib k.client.buffer_out compression text bytes v small framed
          fits in
      (
        _,
        prepare_client-connected c h connected
            ∙ rw (prepare_connected, chosen, found, printed, send_chosen, pushed) refl,
        (b, w, all, refl),
      )
