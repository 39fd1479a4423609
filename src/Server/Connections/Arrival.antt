-- ===== src/Server/Connections/Arrival.antt =====
-- A connection that is established, sends and is closed, through the callbacks of
-- src/server/server.c.
use mbus.Base.{
  ℕ, ◌-◌, ◌^◌, ◌≤◌, ◌≡◌, ◌∙◌, refl, ap, true, ◌==◌, none, some, List, [], ◌∷◌, ◌++◌, length, Exec,
  done, Rc, ok, fail, arith, Bool-cases, inl, inr,
}
use mbus.Buffer.{Buffer, Memory, create, push, contents, IsValid}
use mbus.Buffer.Laws.{Available, push-contents}
use mbus.Client.{Client, client_create}
use mbus.Server.{Server, is_connection, find_client_by_connection, client_at, put_client}
use mbus.Server.Connections.{connection_establish, receive_into, callback_connection_receive}

create-IsValid : IsValid create
unfolding create
create-IsValid = record {
  within = omega arith;
  allocated = refl;
  aligned = refl;
  word = omega arith;
}

same_number : (k : ℕ) → (k == k) ≡ true
same_number k = ground arith

module _ {J : Type 0} where
  find-append :
      (cs : List (Client J)) (c : Client J) (k : ℕ)
      → find_client_by_connection cs k ≡ none
      → is_connection c.connection k ≡ true
      → find_client_by_connection (cs ++ (c ∷ [])) k ≡ some c
  unfolding find_client_by_connection
  find-append [] c k h q = rw q refl
  find-append (d ∷ ds) c k h q = elim (Bool-cases (is_connection d.connection k)) [
    | inl hit ↦ ground (arith, hit)
    | inr miss ↦ rw miss (find-append ds c k (ground (arith, miss)) q)
  ]

  put-append :
      (cs : List (Client J)) (c d : Client J)
      → client_at cs c.handle ≡ none
      → d.handle ≡ c.handle
      → put_client c (cs ++ (d ∷ [])) ≡ cs ++ (c ∷ [])
  unfolding put_client client_at
  put-append [] c d h q = ground (arith, q)
  put-append (k ∷ ks) c d h q = elim (Bool-cases (k.handle == c.handle)) [
    | inl hit ↦ ground (arith, hit)
    | inr miss ↦ rw miss (ap (λ t. k ∷ t) (put-append ks c d (ground (arith, miss)) q))
  ]

  receive-append :
      (m : Memory) (s : Server J) (c : Client J) (connection : ℕ) (bytes : List ℕ) (b : Buffer)
      → find_client_by_connection s.clients connection ≡ none
      → is_connection c.connection connection ≡ true
      → client_at s.clients c.handle ≡ none
      → push m c.buffer_in bytes ≡ done (b, ok)
      → callback_connection_receive m
          (record s { clients = s.clients ++ (c ∷ []) })
          connection
          bytes
        ≡ done (record s { clients = s.clients ++ (record c { buffer_in = b } ∷ []) }, ok)
  unfolding callback_connection_receive receive_into
  receive-append m s c connection bytes b new its fresh pushed =
      let t : Server J = record s { clients = s.clients ++ (c ∷ []) } in
      ap
        (λ o. elim o as (λ _. Exec (Server J × Rc)) [
          | none ↦ done (t, fail)
          | some d ↦ receive_into m t d bytes
        ])
        (find-append s.clients c connection new its)
      ∙ rw (pushed, put-append s.clients (record c { buffer_in = b }) c fresh refl) refl

  -- The first bytes of a connection that is new to the server, under an address that is new, are
  -- the contents of the new client's input buffer, and no other client changes, if memory is
  -- available and the bytes stay below the last chunk of a 32-bit size.
  pub callback_connection_receive-establish :
      (m : Memory) (s : Server J) (handle listener connection : ℕ) (bytes : List ℕ)
      → Available m
      → find_client_by_connection s.clients connection ≡ none
      → client_at s.clients handle ≡ none
      → length bytes ≤ 2 ^ 32 - 4096
      → (b : Buffer) × (callback_connection_receive m
            (connection_establish s handle listener connection).0
            connection
            bytes
          ≡ done (
            record s {
              clients =
                  s.clients
                  ++ (record (client_create handle listener connection) { buffer_in = b } ∷ []);
            },
            ok,
          ))
        × IsValid b
        × (contents b ≡ bytes)
  unfolding connection_establish client_create create
  callback_connection_receive-establish m s handle listener connection bytes can new fresh fits =
      let (b, pushed, v, all) = push-contents m create bytes can create-IsValid (omega arith) in
      (
        b,
        receive-append m s (client_create handle listener connection) connection bytes b new
            (same_number connection) fresh pushed,
        v,
        all,
      )
