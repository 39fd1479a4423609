-- ===== src/Client/Laws.antt =====
-- The subscriptions that a client keeps, client_add_subscription and client_del_subscription of
-- src/server/server.c.
use mbus.Base.{
  ◌≡◌, ◌∙◌, refl, sym, subst, Bool, true, false, not, ◌&&◌, ◌||◌, List, [], ◌∷◌, ◌++◌, String,
  str_eq, eq_iff, if◌then◌else◌, ok, fail, arith, Bool-cases, inl, inr,
}
use mbus.Client.{
  Client, Subscription, same_subscription, has_subscription, remove_subscription,
  client_add_subscription, client_del_subscription,
}

-- No subscription is there twice.
unfoldable pub distinct_subscriptions : List Subscription → Bool
distinct_subscriptions [] = true
distinct_subscriptions (s ∷ ss) =
    not (has_subscription ss s.source s.event) && distinct_subscriptions ss

-- The sources and the events are the same texts.
abbrev pub same_names : String → String → String → String → Bool
same_names source event source' event' = str_eq source source' && str_eq event event'

str_eq-sym : (a b : String) → str_eq a b ≡ str_eq b a
str_eq-sym a b = elim (Bool-cases (str_eq a b)) [
  | inl same ↦ let q : a ≡ b = (eq_iff a b).0 same in same ∙ sym ((eq_iff b a).1 (sym q))
  | inr other ↦ elim (Bool-cases (str_eq b a)) [
    | inl same ↦ let q : b ≡ a = (eq_iff b a).0 same in (eq_iff a b).1 (sym q) ∙ sym same
    | inr other' ↦ other ∙ sym other'
  ]
]

has_subscription-append :
    (ss : List Subscription) (source event source' event' : String)
    → has_subscription (ss ++ (record { source = source; event = event } ∷ [])) source' event' ≡ (
        if has_subscription ss source' event' then true else same_names source event source' event')
unfolding has_subscription
has_subscription-append [] source event source' event' = ground arith
has_subscription-append (s ∷ ss) source event source' event' =
    ground (arith, has_subscription-append ss source event source' event')

distinct-append :
    (ss : List Subscription) (source event : String)
    → has_subscription ss source event ≡ false
    → distinct_subscriptions ss ≡ true
    → distinct_subscriptions (ss ++ (record { source = source; event = event } ∷ [])) ≡ true
unfolding has_subscription distinct_subscriptions
distinct-append [] source event h d = refl
distinct-append (s ∷ ss) source event h d = ground (
  arith,
  has_subscription-append ss source event s.source s.event,
  str_eq-sym s.source source,
  str_eq-sym s.event event,
  distinct-append ss source event,
)

both_true : (a b : Bool) → a && b ≡ true → (a ≡ true) × (b ≡ true)
both_true true true h = (refl, refl)
both_true true false h = cc
both_true false b h = cc

same_texts :
    (source event source' event' : String)
    → same_names source event source' event' ≡ true
    → (source ≡ source') × (event ≡ event')
same_texts source event source' event' h =
    let (p, q) = both_true (str_eq source source') (str_eq event event') h in
    ((eq_iff source source').0 p, (eq_iff event event').0 q)

has_subscription-cons :
    (ss : List Subscription) (source event source' event' : String)
    → has_subscription ss source event ≡ false
    → has_subscription ss source' event'
      ≡ not (same_names source event source' event')
        && (if same_names source event source' event'
            then true
            else has_subscription ss source' event')
has_subscription-cons ss source event source' event' h =
    elim (Bool-cases (same_names source event source' event')) [
      | inl same ↦
          let (p, q) = same_texts source event source' event' same in
          rw same (
            subst (λ k. has_subscription ss source' k ≡ false) q
              (subst (λ k. has_subscription ss k event ≡ false) p h))
      | inr other ↦ rw other refl
    ]

-- A removal takes a subscription out of a set, and no other.
has_subscription-remove :
    (ss : List Subscription) (source event source' event' : String)
    → distinct_subscriptions ss ≡ true
    → has_subscription (remove_subscription ss source event) source' event'
      ≡ not (same_names source event source' event') && has_subscription ss source' event'
unfolding has_subscription remove_subscription distinct_subscriptions
has_subscription-remove [] source event source' event' d = ground arith
has_subscription-remove (s ∷ ss) source event source' event' d =
    elim (Bool-cases (same_subscription s source event)) [
      | inl hit ↦
          let (p, q) = same_texts s.source s.event source event hit in
          rw (hit, sym p, sym q)
            (has_subscription-cons ss s.source s.event source' event' (ground (arith, d)))
      | inr miss ↦ elim (Bool-cases (same_names source event source' event')) [
        | inl same ↦
            let (p, q) = same_texts source event source' event' same in
            ground (
              arith,
              miss,
              same,
              has_subscription-remove ss source event source' event',
              subst (λ k. str_eq s.source k && str_eq s.event event' ≡ false) p
                  (subst (λ k. str_eq s.source source && str_eq s.event k ≡ false) q miss),
            )
        | inr other ↦
            ground (arith, miss, other, has_subscription-remove ss source event source' event')
      ]
    ]

distinct-remove :
    (ss : List Subscription) (source event : String)
    → distinct_subscriptions ss ≡ true
    → distinct_subscriptions (remove_subscription ss source event) ≡ true
unfolding remove_subscription distinct_subscriptions
distinct-remove [] source event d = refl
distinct-remove (s ∷ ss) source event d = ground (
  arith,
  distinct-remove ss source event,
  has_subscription-remove ss source event s.source s.event,
)

has_subscription-same :
    (ss : List Subscription) (source event source' event' : String) (b : Bool)
    → has_subscription ss source event ≡ b
    → same_names source event source' event' ≡ true
    → has_subscription ss source' event' ≡ b
has_subscription-same ss source event source' event' b h same =
    let (p, q) = same_texts source event source' event' same in
    subst (λ k. has_subscription ss source' k ≡ b) q
      (subst (λ k. has_subscription ss k event ≡ b) p h)

module _ {J : Type 0} where
  -- Where no subscription of a client is there twice, subscribing succeeds and keeps it so;
  -- afterwards exactly the new subscription and the old ones are there.
  pub client_add_subscription-set :
      (c : Client J) (source event : String)
      → distinct_subscriptions c.subscriptions ≡ true
      → ((client_add_subscription c source event).1 ≡ ok)
        × (distinct_subscriptions (client_add_subscription c source event).0.subscriptions ≡ true)
        × ((source' event' : String)
            → has_subscription
                (client_add_subscription c source event).0.subscriptions
                source'
                event'
              ≡ same_names source event source' event'
                || has_subscription c.subscriptions source' event')
  unfolding client_add_subscription
  client_add_subscription-set c source event d =
      elim (Bool-cases (has_subscription c.subscriptions source event)) [
        | inl there ↦ rw there (
          refl,
          d,
          λ source' event'.
              ground (
                arith,
                has_subscription-same c.subscriptions source event source' event' true there,
              ),
        )
        | inr missing ↦ rw missing (
          refl,
          distinct-append c.subscriptions source event missing d,
          λ source' event'.
              ground (arith, has_subscription-append c.subscriptions source event source' event'),
        )
      ]

  -- Where no subscription of a client is there twice, unsubscribing succeeds exactly where the
  -- subscription is there, and keeps it so; afterwards exactly the other ones are there.
  pub client_del_subscription-set :
      (c : Client J) (source event : String)
      → distinct_subscriptions c.subscriptions ≡ true
      → ((client_del_subscription c source event).1
          ≡ (if has_subscription c.subscriptions source event then ok else fail))
        × (distinct_subscriptions (client_del_subscription c source event).0.subscriptions ≡ true)
        × ((source' event' : String)
            → has_subscription
                (client_del_subscription c source event).0.subscriptions
                source'
                event'
              ≡ not (same_names source event source' event')
                && has_subscription c.subscriptions source' event')
  unfolding client_del_subscription
  client_del_subscription-set c source event d =
      elim (Bool-cases (has_subscription c.subscriptions source event)) [
        | inl there ↦ rw there (
          refl,
          distinct-remove c.subscriptions source event d,
          λ source' event'. has_subscription-remove c.subscriptions source event source' event' d,
        )
        | inr missing ↦ rw missing (
          refl,
          d,
          λ source' event'. ground (
            arith,
            has_subscription-same c.subscriptions source event source' event' false missing,
          ),
        )
      ]
