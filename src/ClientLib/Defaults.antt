-- ===== src/ClientLib/Defaults.antt =====
-- The options of a new client of src/client/client.c.
use mbus.Base.{
  zero, suc, true, false, ◌≡◌, ◌∙◌, refl, ap, sym, Option, none, some, String, str_eq, subst, inl,
  inr, Bool-cases, Option-cases, arith,
}
use mbus.Base.Int.{ℤ, pos, negsuc, le_int, is_neg, is_le_zero, eq_int}
use mbus.ClientLib.{ClientOptions}
use mbus.ClientLib.Requests.{or_default}
use mbus.ClientLib.Options.{
  default_timeout, default_ping_interval, default_ping_timeout, or_string, if_zero, at_most_int,
  with_defaults, with_server, server_defaults, normal_options,
}

pub record IsNormal (o : ClientOptions) : Type 0 where
  pub identifier : (s : String) × (o.identifier ≡ some s)
  pub password : (s : String) × (o.password ≡ some s)
  pub connect_timeout : is_le_zero o.connect_timeout ≡ false
  pub connect_interval : is_neg o.connect_interval ≡ false
  pub subscribe_timeout : is_le_zero o.subscribe_timeout ≡ false
  pub register_timeout : is_le_zero o.register_timeout ≡ false
  pub command_timeout : is_le_zero o.command_timeout ≡ false
  pub publish_timeout : is_le_zero o.publish_timeout ≡ false
  pub ping_interval : eq_int o.ping_interval (pos 0) ≡ false
  pub ping_timeout : le_int o.ping_timeout o.ping_interval ≡ true
  pub server_address : (s : String) × (o.server_address ≡ some s)
  -- A second round of server defaults leaves the options.
  pub server : (p : String) × (o.server_protocol ≡ some p) × (server_defaults o p ≡ some o)

or_default_positive : (n d : ℤ) → is_le_zero d ≡ false → is_le_zero (or_default n d) ≡ false
unfolding or_default
or_default_positive n d h = ground arith

or_default_twice : (n d : ℤ) → or_default (or_default n d) d ≡ or_default n d
unfolding or_default
or_default_twice n d = ground arith

or_default_not_neg : (n : ℤ) → is_neg (or_default n (pos 0)) ≡ false
unfolding or_default
or_default_not_neg (pos zero) = refl
or_default_not_neg (pos (suc n)) = refl
or_default_not_neg (negsuc n) = refl

le_int_refl : (a : ℤ) → le_int a a ≡ true
le_int_refl (pos n) = ground arith
le_int_refl (negsuc n) = ground arith

at_most_int-le : (t i : ℤ) → le_int (at_most_int t i) i ≡ true
unfolding at_most_int
at_most_int-le t i = ground (arith, le_int_refl i)

or_string-some : (o : Option String) (d : String) → (s : String) × (or_string o d ≡ some s)
or_string-some none d = (d, refl)
or_string-some (some s) d = (s, refl)

or_string_twice : (o : Option String) (d : String) → or_string (or_string o d) d ≡ or_string o d
or_string_twice none d = refl
or_string_twice (some s) d = refl

if_zero_nonzero : (n d : ℤ) → eq_int d (pos 0) ≡ false → eq_int (if_zero n d) (pos 0) ≡ false
unfolding if_zero
if_zero_nonzero n d h = ground arith

with_server_twice :
    (o : ClientOptions) (port : ℤ) (address : String)
    → with_server (with_server o port address) port address ≡ with_server o port address
unfolding with_server
with_server_twice o port address =
    rw (or_default_twice o.server_port port, or_string_twice o.server_address address) refl

some_inj : {a b : ClientOptions} → some a ≡ some b → a ≡ b
some_inj h = cc

-- The choice of a port and an address does not look at the options.
abbrev Chosen : ClientOptions → String → ClientOptions → Type 0
Chosen o p o' =
    (port : ℤ) × (address : String) × (with_server o port address ≡ o')
    × (server_defaults o' p ≡ some o')

chosen :
    (o : ClientOptions) (p : String) (port : ℤ) (address : String) (o' : ClientOptions)
    → with_server o port address ≡ o'
    → ((q : ClientOptions) → server_defaults q p ≡ some (with_server q port address))
    → Chosen o p o'
chosen o p port address o' e f = (
  port,
  address,
  e,
  f o'
      ∙ ap some
          (ap (λ q. with_server q port address) (sym e) ∙ (with_server_twice o port address ∙ e)),
)

server_defaults-Chosen :
    (o : ClientOptions) (p : String) (o' : ClientOptions)
    → server_defaults o p ≡ some o'
    → Chosen o p o'
unfolding server_defaults
server_defaults-Chosen o p o' h = elim (Bool-cases (str_eq p "tcp")) [
  | inl t ↦ chosen o p (pos 8000) "127.0.0.1" o' (some_inj (ground (arith, t, h))) (λ q. rw t refl)
  | inr t ↦ elim (Bool-cases (str_eq p "uds")) [
    | inl u ↦
        chosen o p (pos 0) "/tmp/mbus-server-uds" o' (some_inj (ground (arith, t, u, h)))
          (λ q. rw (t, u) refl)
    | inr u ↦ elim (Bool-cases (str_eq p "tcps")) [
      | inl v ↦
          chosen o p (pos 8001) "127.0.0.1" o' (some_inj (ground (arith, t, u, v, h)))
            (λ q. rw (t, u, v) refl)
      | inr v ↦ elim (Bool-cases (str_eq p "udss")) [
        | inl w ↦
            chosen o p (pos 0) "/tmp/mbus-server-udss" o' (some_inj (ground (arith, t, u, v, w, h)))
              (λ q. rw (t, u, v, w) refl)
        | inr w ↦ absurd (ground (arith, t, u, v, w, h))
      ]
    ]
  ]
]

-- The defaults of a server keep the rest of normal options.
with_server-IsNormal :
    (i : ClientOptions) (p : String) (port : ℤ) (address : String) (o : ClientOptions)
    → (with_defaults i).server_protocol ≡ some p
    → with_server (with_defaults i) port address ≡ o
    → server_defaults o p ≡ some o
    → IsNormal o
unfolding with_defaults with_server
with_server-IsNormal i p port address o e f =
    subst (λ q. server_defaults q p ≡ some q → IsNormal q) f
      (λ s. record {
        identifier = or_string-some i.identifier "";
        password = or_string-some i.password "";
        connect_timeout = or_default_positive i.connect_timeout default_timeout refl;
        connect_interval = or_default_not_neg i.connect_interval;
        subscribe_timeout = or_default_positive i.subscribe_timeout default_timeout refl;
        register_timeout = or_default_positive i.register_timeout default_timeout refl;
        command_timeout = or_default_positive i.command_timeout default_timeout refl;
        publish_timeout = or_default_positive i.publish_timeout default_timeout refl;
        ping_interval = if_zero_nonzero i.ping_interval default_ping_interval refl;
        ping_timeout =
            at_most_int-le (if_zero i.ping_timeout default_ping_timeout)
              (if_zero i.ping_interval default_ping_interval);
        server_address = or_string-some i.server_address address;
        server = (p, e, s);
      })

-- The options of a client that was created, of whatever options: the identifier, the password, the
-- address and the protocol are there, the timeouts are positive, the connect interval is not
-- negative, the ping interval is not 0 and the ping timeout not above it; and the defaults that a
-- connection puts in for the protocol change nothing any more.
pub normal_options-IsNormal : (i o : ClientOptions) → normal_options i ≡ some o → IsNormal o
unfolding normal_options
normal_options-IsNormal i o h = elim (Option-cases (with_defaults i).server_protocol) [
  | inl n ↦ absurd (ground (arith, n, h))
  | inr (p, e) ↦
      let (port, address, f, s) = server_defaults-Chosen (with_defaults i) p o (
        ap
          (λ q. elim q as (λ _. Option ClientOptions) [
            | none ↦ none
            | some protocol ↦ server_defaults (with_defaults i) protocol
          ])
          (sym e)
        ∙ h) in
      with_server-IsNormal i p port address o e f s
]
