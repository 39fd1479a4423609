-- ===== src/Server/Calls/Matching.antt =====
-- server_handle_command_result of src/server/server.c: which waiting call an answer goes to.
use mbus.Base.{
  ◌≡◌, ◌⊎◌, ◌∙◌, refl, ap, true, false, str_eq, eq_iff, arith, done, Option, none, some, List, [],
  ◌∷◌, ◌++◌, All, String, Bool-cases, inl, inr,
}
use mbus.Base.Int.{ℤ, eq_int}
use mbus.Method.{
  Method, tag_status, tag_payload, request_sequence, request_destination, request_identifier,
  set_result_code, set_result_payload, replace_payload,
}
use mbus.Client.{Client, client_push_result}
use mbus.Server.{Env, strcmp}
use mbus.Server.Calls.{answers, put_back, take_wait, finish, move_wait, resolve}

module _ {J : Type 0} (e : Env J) where
  open e use {cj}

  -- The answer is for this call: its number, the client that was called, and the command.
  pub record Fits (sequence : ℤ) (source identifier : String) (w : Method J) : Type 0 where
    pub number : eq_int sequence (request_sequence cj w) ≡ true
    pub callee : request_destination cj w ≡ some source
    pub command : request_identifier cj w ≡ some identifier

  -- The call has the two names that are compared.
  pub record HasNames (w : Method J) : Type 0 where
    pub callee : (name : String) × (request_destination cj w ≡ some name)
    pub command : (name : String) × (request_identifier cj w ≡ some name)

  -- The call is the first that the answer is for, and the others stay as they are, in their order.
  pub record IsFirst (ws : List (Method J)) (sequence : ℤ) (source identifier : String)
      (w : Method J) (others : List (Method J)) : Type 0 where
    pub front : List (Method J)
    pub back : List (Method J)
    pub waits : ws ≡ front ++ (w ∷ back)
    pub kept : others ≡ front ++ back
    pub fits : Fits sequence source identifier w
    pub first : All (λ k. ¬ (Fits sequence source identifier k)) front

  named_apart :
      (o : Option String) (name other : String)
      → o ≡ some name
      → str_eq name other ≡ false
      → ¬ (o ≡ some other)
  named_apart o name other e h f =
      let same : name ≡ other = cc in
      let equal : str_eq name other ≡ true = (eq_iff name other).1 same in
      absurd (ground (arith, equal, h))

  answers-cases :
      (w : Method J) (sequence : ℤ) (source identifier : String)
      → HasNames w
      → (answers e w sequence source identifier ≡ done true) × Fits sequence source identifier w
        ⊎ ((answers e w sequence source identifier ≡ done false)
            × ¬ (Fits sequence source identifier w))
  unfolding answers strcmp
  answers-cases w sequence source identifier n =
      elim (Bool-cases (eq_int sequence (request_sequence cj w))) [
        | inr other ↦ inr (rw (other) refl, λ f. absurd (cc (f.number, other)))
        | inl number ↦ elim (Bool-cases (str_eq n.callee.0 source)) [
          | inr other ↦ inr (
            rw (number, n.callee.1, strcmp, other) refl,
            λ f. named_apart _ _ _ n.callee.1 other f.callee,
          )
          | inl to ↦ elim (Bool-cases (str_eq n.command.0 identifier)) [
            | inr other ↦ inr (
              rw (number, n.callee.1, strcmp, to, n.command.1, strcmp, other) refl,
              λ f. named_apart _ _ _ n.command.1 other f.command,
            )
            | inl same ↦ inl (
              rw (number, n.callee.1, strcmp, to, n.command.1, strcmp, same) refl,
              record {
                number = number;
                callee = n.callee.1 ∙ ap some ((eq_iff _ _).0 to);
                command = n.command.1 ∙ ap some ((eq_iff _ _).0 same);
              },
            )
          ]
        ]
      ]

  -- The result object of a call that has one, with the status, and with the payload in place of the
  -- one that it had.
  abbrev pub answered : Option J → ℤ → Option J → Option J
  answered none status payload = none
  answered (some r) status none = some (
      cj.delete_item_from_object (cj.add_item_to_object r tag_status (cj.create_number status))
        tag_payload)
  answered (some r) status (some p) = some (
      cj.add_item_to_object
        (cj.delete_item_from_object (cj.add_item_to_object r tag_status (cj.create_number status))
          tag_payload)
        tag_payload p)

  finish-answered :
      (w : Method J) (rc : ℤ) (payload : Option J)
      → finish e w rc payload ≡ record w { result = answered w.result rc payload }
  unfolding finish set_result_code set_result_payload replace_payload
  finish-answered w rc payload = of_result w.result payload
    where
      of_result :
          (o : Option J) (p : Option J)
          → finish e (record w { result = o }) rc p ≡ record w { result = answered o rc p }
      of_result none p = refl
      of_result (some r) none = refl
      of_result (some r) (some p) = refl

  take_wait-cases :
      (ws : List (Method J)) (sequence : ℤ) (source identifier : String)
      → All HasNames ws
      → (take_wait e ws sequence source identifier ≡ done none)
          × All (λ k. ¬ (Fits sequence source identifier k)) ws
        ⊎ ((w : Method J) × (others : List (Method J)) × (take_wait e ws sequence source identifier
              ≡ done (some (w, others)))
            × IsFirst ws sequence source identifier w others)
  unfolding take_wait put_back
  take_wait-cases [] sequence source identifier n = inl (refl, tt)
  take_wait-cases (k ∷ ks) sequence source identifier (n, ns) =
      elim (answers-cases k sequence source identifier n) [
        | inl (hit, fits) ↦ inr (
          k,
          ks,
          rw hit refl,
          record { front = []; back = ks; waits = refl; kept = refl; fits = fits; first = tt },
        )
        | inr (miss, other) ↦ elim (take_wait-cases ks sequence source identifier ns) [
          | inl (nothing, h) ↦ inl (rw (miss, nothing) refl, (other, h))
          | inr (w, others, found, p) ↦ inr (
            w,
            k ∷ others,
            rw (miss, found) refl,
            record {
              front = k ∷ p.front;
              back = p.back;
              waits = ap (λ t. k ∷ t) p.waits;
              kept = ap (λ t. k ∷ t) p.kept;
              fits = p.fits;
              first = (other, p.first);
            },
          )
        ]
      ]

  -- Where the waiting calls of a client have the names that are compared, an answer leaves it as it is
  -- if it is for none of them by sequence number, called client and command; otherwise the first
  -- call that it is for moves from the waiting calls to the end of the results, with the status and
  -- the payload of the answer in its result object, and no other.
  pub resolve-IsFirst :
      (c : Client J) (sequence : ℤ) (source identifier : String) (rc : ℤ) (payload : Option J)
      → All HasNames c.waits
      → (resolve e c sequence source identifier rc payload ≡ done c)
          × All (λ k. ¬ (Fits sequence source identifier k)) c.waits
        ⊎ ((w : Method J) × (others : List (Method J)) × IsFirst c.waits sequence source identifier
              w others
            × (resolve e c sequence source identifier rc payload
                ≡ done (record c {
                  waits = others;
                  results = c.results ++ (record w { result = answered w.result rc payload } ∷ []);
                })))
  unfolding resolve move_wait finish set_result_code set_result_payload client_push_result
  resolve-IsFirst c sequence source identifier rc payload n =
      elim (take_wait-cases c.waits sequence source identifier n) [
        | inl (nothing, h) ↦ inl (rw (nothing, resolve) refl, h)
        | inr (w, others, found, p) ↦
            inr (w, others, p, rw (found, resolve, finish-answered w rc payload) refl)
      ]
