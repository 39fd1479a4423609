-- ===== src/Server/Keeps.antt =====
-- The part of the server's state that the handlers of src/server/server.c leave alone: the addresses
-- of the clients, the queue of methods, the password and what is known of the waiting calls.
pub mod Events
use mbus.Base.{
  All, subst, ℕ, ◌≡◌, ◌∙◌, refl, Bool, true, false, Option, none, some, List, [], ◌∷◌, String, ◌==◌,
  if◌then◌else◌, done, arith, Option-cases, Bool-cases, inl, inr,
}
use mbus.Method.{Method}
use mbus.Client.{Client}
use mbus.Server.{Server, is_named, client_at, source_of, put_client, find_client_by_identifier}
use mbus.Server.Presence.{handles}

-- Every one of the calls, or every waiting call of the clients, passes the test.
abbrev pub AllPass : {J : Type 0} → (Method J → Bool) → List (Method J) → Type 0
AllPass p = All (λ w. p w ≡ true)

abbrev pub WaitsPass : {J : Type 0} → (Method J → Bool) → List (Client J) → Type 0
WaitsPass p = All (λ c. AllPass p c.waits)

-- No client waits for a call that none waited for before.
abbrev pub Fewer : {J : Type 0} → List (Client J) → List (Client J) → Type 0
Fewer {J} cs cs' = (p : Method J → Bool) → WaitsPass p cs → WaitsPass p cs'

-- The waiting calls of the client are among those of the clients.
abbrev pub Known : {J : Type 0} → List (Client J) → Client J → Type 0
Known {J} cs c = (p : Method J → Bool) → WaitsPass p cs → AllPass p c.waits

pub record Keeps {J : Type 0} (s s' : Server J) : Type 0 where
  pub same_handles : handles s'.clients ≡ handles s.clients
  pub same_methods : s'.methods ≡ s.methods
  pub same_password : s'.password ≡ s.password
  pub fewer_waits : Fewer s.clients s'.clients

unfoldable pub has_handle : List ℕ → ℕ → Bool
has_handle [] h = false
has_handle (k ∷ ks) h = if k == h then true else has_handle ks h

module _ {J : Type 0} where
  pub Keeps-refl : (s : Server J) → Keeps s s
  Keeps-refl s = record {
    same_handles = refl;
    same_methods = refl;
    same_password = refl;
    fewer_waits = λ p h. h;
  }

  pub Keeps-trans : (s t u : Server J) → Keeps s t → Keeps t u → Keeps s u
  Keeps-trans s t u a b = record {
    same_handles = b.same_handles ∙ a.same_handles;
    same_methods = b.same_methods ∙ a.same_methods;
    same_password = b.same_password ∙ a.same_password;
    fewer_waits = λ p h. b.fewer_waits p (a.fewer_waits p h);
  }

  pub handles-put_client :
      (c : Client J) (cs : List (Client J)) → handles (put_client c cs) ≡ handles cs
  unfolding put_client
  handles-put_client c [] = refl
  handles-put_client c (d ∷ ds) = ground (arith, handles-put_client c ds)

  pub put_client-Fewer :
      (c : Client J) (cs : List (Client J)) (p : Method J → Bool)
      → AllPass p c.waits
      → WaitsPass p cs
      → WaitsPass p (put_client c cs)
  unfolding put_client
  put_client-Fewer c [] p w h = tt
  put_client-Fewer c (d ∷ ds) p w (x, xs) = elim (Bool-cases (d.handle == c.handle)) [
    | inl hit ↦ rw hit (w, xs)
    | inr miss ↦ rw miss (x, put_client-Fewer c ds p w xs)
  ]

  pub client_at-Known :
      (cs : List (Client J)) (h : ℕ) (c : Client J) → client_at cs h ≡ some c → Known cs c
  unfolding client_at
  client_at-Known [] h c e p w = absurd (ground (arith, e))
  client_at-Known (d ∷ ds) h c e p (x, xs) = elim (Bool-cases (d.handle == h)) [
    | inl hit ↦ let same : d ≡ c = ground (arith, e, hit) in subst (λ k. AllPass p k.waits) same x
    | inr miss ↦ client_at-Known ds h c (ground (arith, e, miss)) p xs
  ]

  pub find_client_by_identifier-Known :
      (cs : List (Client J)) (name : String) (c : Client J)
      → find_client_by_identifier cs name ≡ some c
      → Known cs c
  unfolding find_client_by_identifier
  find_client_by_identifier-Known [] name c e p w = absurd (ground (arith, e))
  find_client_by_identifier-Known (d ∷ ds) name c e p (x, xs) =
      elim (Bool-cases (is_named d.identifier name)) [
        | inl hit ↦
            let same : d ≡ c = ground (arith, e, hit) in subst (λ k. AllPass p k.waits) same x
        | inr miss ↦ find_client_by_identifier-Known ds name c (ground (arith, e, miss)) p xs
      ]

  pub source_of-Known :
      (cs : List (Client J)) (o : Option ℕ) (c : Client J) → source_of cs o ≡ done c → Known cs c
  unfolding source_of
  source_of-Known cs none c e p w = absurd (ground (arith, e))
  source_of-Known cs (some h) c e p w = elim (Option-cases (client_at cs h)) [
    | inl missing ↦ absurd (ground (arith, e, missing))
    | inr (d, found) ↦
        let same : d ≡ c = ground (arith, e, found) in
        subst (λ k. AllPass p k.waits) same (client_at-Known cs h d found p w)
  ]

  -- The address of a client leads to a client with that address.
  pub client_at-handle :
      (cs : List (Client J)) (h : ℕ) (c : Client J) → client_at cs h ≡ some c → c.handle ≡ h
  unfolding client_at
  client_at-handle [] h c e = cc
  client_at-handle (d ∷ ds) h c e = ground (arith, client_at-handle ds h c)

  client_at-known :
      (cs : List (Client J)) (h : ℕ)
      → has_handle (handles cs) h ≡ true
      → (c : Client J) × (client_at cs h ≡ some c)
  unfolding client_at has_handle
  client_at-known [] h e = cc
  client_at-known (d ∷ ds) h e = elim (Bool-cases (d.handle == h)) [
    | inl hit ↦ (d, rw hit)
    | inr miss ↦
        let (c, found) = client_at-known ds h (ground (arith, e, miss)) in (c, rw miss found)
  ]

  -- A source that has not been freed can be followed.
  pub source_of-known :
      (cs : List (Client J)) (h : ℕ)
      → has_handle (handles cs) h ≡ true
      → (c : Client J) × (source_of cs (some h) ≡ done c) × (client_at cs h ≡ some c)
  unfolding source_of
  source_of-known cs h e =
      let (c, found) = client_at-known cs h e in (c, rw (found, source_of), found)
