-- ===== src/Controller/Balances.antt =====
-- What the gauges of finality-gadget/operator/fp/controllers/controller.go show.
use blitz.Base.{
  ℕ, ◌+◌, ◌-◌, ◌≡◌, sym, ◌∙◌, refl, inl, inr, String, Option, none, some, Error, value, fails,
  Reply-cases, u64, ◌==◌, string_eq, if◌then◌else◌, new, arith,
}
use blitz.Base.GoMap.{GoMap, lookup, lookup-insert}
use blitz.Process.{Outcome, returned, panicked, pure, modify, outcome, discarding, ◌>>=◌}
use blitz.Controller.{
  ControllerEnv, ControllerWorld, ask, query_balance, record_balance, measure, measurement,
}

-- What a query of the balance comes to: an error, an answer without a balance, or a balance.
pub data Balance (Float : Type 0) : Type 0 where
  unknown : Balance Float
  absent : Balance Float
  known : Float → Balance Float

module _ (e : ControllerEnv) where
  -- By the request, the query at `t` and the answer.
  abbrev pub balance_at : String → ℕ → Balance e.Float
  balance_at address t = elim (e.marshal address "ubbn") [
    | fails m ↦ unknown
    | value request ↦ elim (e.abci_query t "/cosmos.bank.v1beta1.Query/Balance" request) [
      | fails m ↦ unknown
      | value answer ↦ elim (e.unmarshal answer) [
        | fails m ↦ unknown
        | value none ↦ absent
        | value (some ubbn) ↦ known (e.in_millions (u64 ubbn))
      ]
    ]
  ]

  -- What the gauge of `other` shows after a measurement of `address`.
  abbrev pub shown : String → Balance e.Float → GoMap String e.Float → String → Option e.Float
  shown address unknown before other =
      if address == other then some e.no_balance else lookup other before
  shown address absent before other = lookup other before
  shown address (known balance) before other =
      if address == other then some balance else lookup other before

  -- A measurement: without an address, or with one at `t`.
  pub data Measured (w : ControllerWorld e.Float)
      : Outcome (Unit {0}) → GoMap String e.Float → Type 0 where
    no_address : (m : String) → e.get_addr w.instant ≡ fails m → Measured w (returned tt) w.balances
    recorded :
        (address : String) (after : GoMap String e.Float)
        → e.get_addr w.instant ≡ value address
        → (balance_at address (w.instant + 1 + 1) ≡ absent → ⊥)
        → ((other : String)
            → lookup other after
              ≡ shown address (balance_at address (w.instant + 1 + 1)) w.balances other)
        → Measured w (returned tt) after
    no_balance :
        (address : String) (x : Error)
        → e.get_addr w.instant ≡ value address
        → balance_at address (w.instant + 1 + 1) ≡ absent
        → Measured w (panicked x) w.balances

  abbrev seen : Balance e.Float → Outcome (Option e.Float)
  seen unknown = returned none
  seen absent = panicked (new "invalid memory address or nil pointer dereference")
  seen (known balance) = returned (some balance)

  query_balance_lem :
      (address : String) (w : ControllerWorld e.Float)
      → (k : ℕ) × (discarding (query_balance e address "ubbn") w
          ≡ (seen (balance_at address (w.instant + 1)), record w { instant = k }))
  unfolding query_balance discarding ask outcome ◌>>=◌ pure
  query_balance_lem address w = elim (Reply-cases (e.marshal address "ubbn")) [
    | inr (m, a) ↦ rw (balance_at, a) (_, refl)
    | inl (request, a) ↦
        elim (Reply-cases
          (e.abci_query (w.instant + 1) "/cosmos.bank.v1beta1.Query/Balance" request)) [
            | inr (m, b) ↦ rw (balance_at, a, b) (_, refl)
            | inl (answer, b) ↦ elim (Reply-cases (e.unmarshal answer)) [
              | inr (m, c) ↦ rw (balance_at, a, b, c) (_, refl)
              | inl (none, c) ↦ rw (balance_at, a, b, c) (_, refl)
              | inl (some ubbn, c) ↦ rw (balance_at, a, b, c) (_, refl)
            ]
          ]
  ]

  -- The measurement of an address, by what the query comes to.
  measured :
      (address : String) (balance : Balance e.Float) (w u : ControllerWorld e.Float) (k : ℕ)
      → e.get_addr w.instant ≡ value address
      → balance_at address (w.instant + 1 + 1) ≡ balance
      → u.balances ≡ w.balances
      → discarding (query_balance e address "ubbn") u ≡ (seen balance, record u { instant = k })
      → Measured w (measure e (some address) u).0 (measure e (some address) u).1.balances
  unfolding measure record_balance ◌>>=◌ modify
  measured address unknown w u k a b same q =
      rw (q, same)
        (recorded address _ a (λ h. let r = sym b ∙ h in ground arith)
          (λ other. rw b (lookup-insert address other e.no_balance w.balances)))
  measured address absent w u k a b same q = rw (q, same) (no_balance address _ a b)
  measured address (known balance) w u k a b same q =
      rw (q, same)
        (recorded address _ a (λ h. let r = sym b ∙ h in ground arith)
          (λ other. rw b (lookup-insert address other balance w.balances)))

  without_address :
      (w : ControllerWorld e.Float) (m : String)
      → e.get_addr w.instant ≡ fails m
      → Measured w
          (measure e none (record w { waiting = w.waiting - 1; instant = w.instant + 1 })).0
          (measure e none
            (record w { waiting = w.waiting - 1; instant = w.instant + 1 })).1.balances
  unfolding measure pure
  without_address w m a = no_address m a

  -- A measurement panics exactly where the answer of Babylon decodes to none with a balance, and
  -- the gauges stay as they are then, as they do without an address. Otherwise it returns; the
  -- gauge of the address shows its balance, or 0 if that cannot be got, and each other gauge what
  -- it showed before.
  pub measurement_lem :
      (w : ControllerWorld e.Float) → Measured w (measurement e w).0 (measurement e w).1.balances
  unfolding measurement ◌>>=◌ ask discarding modify pure
  measurement_lem w = elim (Reply-cases (e.get_addr w.instant)) [
    | inr (m, a) ↦ rw a (without_address w m a)
    | inl (address, a) ↦
        let u = record w { waiting = w.waiting - 1; instant = w.instant + 1 } in
        let (k, q) = query_balance_lem address u in
        rw a (measured address (balance_at address (w.instant + 1 + 1)) w u k a refl refl q)
  ]
