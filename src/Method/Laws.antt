-- ===== src/Method/Laws.antt =====
-- The constructors of methods.
use mbus.Base.{ℕ, ◌≡◌, ◌≢◌, refl, some, List, String, true, arith, subst, inl, inr, Option-cases}
use mbus.Base.Int.{minus_one}
use mbus.Json.{CJson}
use mbus.Method.{
  Method, request_type, request_destination, request_identifier, request_sequence, request_payload,
  accepts, empty_result, create_request,
}

-- What every request that the server takes has.
pub record IsComplete {J : Type 0} (cj : CJson J) (m : Method J) : Type 0 where
  pub has_type : (t : String) × (request_type cj m ≡ some t)
  pub has_destination : (t : String) × (request_destination cj m ≡ some t)
  pub has_identifier : (t : String) × (request_identifier cj m ≡ some t)
  pub has_sequence : request_sequence cj m ≢ minus_one
  pub has_payload : (p : J) × (request_payload cj m ≡ some p)

module _ {J : Type 0} (cj : CJson J) where
  made : ℕ → J → Method J
  made client json = record {
    request = json;
    result = some (empty_result cj json);
    source = some client;
  }

  accepts-IsComplete :
      (json : J) (client : ℕ) → accepts cj json ≡ true → IsComplete cj (made client json)
  unfolding accepts made request_type request_destination request_identifier request_sequence
      request_payload
  accepts-IsComplete json client h = record {
    has_type = ground arith;
    has_destination = ground arith;
    has_identifier = ground arith;
    has_sequence = ground arith;
    has_payload = ground arith;
  }

  create_request-made :
      (client : ℕ) (string : List ℕ) (m : Method J)
      → create_request cj client string ≡ some m
      → (json : J) × (accepts cj json ≡ true) × (made client json ≡ m)
  unfolding create_request made
  create_request-made client string m h = elim (Option-cases (cj.parse string)) [
    | inl bad ↦ absurd (ground (arith, bad))
    | inr (json, good) ↦ (json, ground (arith, good), ground (arith, good))
  ]

  -- A request is created with its five members present, and remembers its client.
  pub create_request-IsComplete :
      (client : ℕ) (string : List ℕ) (m : Method J)
      → create_request cj client string ≡ some m
      → IsComplete cj m × (m.source ≡ some client)
  create_request-IsComplete client string m h =
      let (json, a, e) = create_request-made client string m h in
      subst (λ x. IsComplete cj x × (x.source ≡ some client)) e
        (accepts-IsComplete json client a, unfold made in refl)
