-- ===== src/Concurrent/Newest.antt =====
-- The query of finality-gadget/rpc/provider finds the newest finalized block, whatever other
-- goroutines do in between.
use blitz.Base.{
  ℕ, zero, suc, ◌+◌, ◌-◌, ◌^◌, ◌≤◌, ◌<◌, ◌≡◌, inl, inr, Bool, true, false, ◌&&◌, ltb, ◌==◌, nat_eq,
  u64, ok, some, arith, Bool-cases, if◌then◌else◌,
}
use blitz.Exec.Preserves.{Preserves}
use blitz.Clients.{Clients}
use blitz.Provider.{World, set_last_finalized}
use blitz.Finality.{fast_check_number_count, search_fuel}
use blitz.Finality.Newest.{IsTurn, IsNewest, NoGaps}
use blitz.Threads.Guarded.{Gives, Gives-answer, Gives-recover, Gives-then}
use blitz.Concurrent.{by_number_steps}
use blitz.Concurrent.Search.{
  check_newest_steps, fast_forward_steps, try_next_steps, search_from_steps, query_above_steps,
}
use blitz.Concurrent.Turn.{Gives-set, Gives-checked, from_to-IsTurn}

module _ (c : Clients) {P : World → Type 0} (q : ℕ → Bool) (head : ℕ) (small : head < 2 ^ 63)
    (May : ℕ → Type 0) (heights : (h : ℕ) → May h → Preserves P (set_last_finalized h))
    (may : (h k : ℕ) → 0 < h → h ≤ k → k ≤ head → q k ≡ true → May h)
    (answers : (h : ℕ) → h ≤ head → Gives P (by_number_steps c h) (ok (q h))) where
  pub Gives-check_newest :
      (n : ℕ) → 1 < n → n ≤ head → Gives P (check_newest_steps c n) (ok (q (n - 1)))
  unfolding check_newest_steps
  Gives-check_newest n big le =
      let test : ltb 1 n ≡ true = ground arith in
      rw test (
        Gives-then _ (some (q (n - 1))) _ _ (Gives-recover _ _ (answers (n - 1) (omega arith)))
          (Gives-answer _))

  abbrev forwarded : ℕ → ℕ → ℕ
  forwarded n from =
      if ltb fast_check_number_count n && ltb from (n - fast_check_number_count)
      then (if q (n - fast_check_number_count) then n - fast_check_number_count else from)
      else from

  Gives-fast_forward :
      (n from : ℕ) → n ≤ head → Gives P (fast_forward_steps c n from) (ok (forwarded n from))
  unfolding fast_forward_steps
  Gives-fast_forward n from le =
      elim (Bool-cases (ltb fast_check_number_count n && ltb from (n - fast_check_number_count))) [
        | inl far ↦ rw far (
            Gives-then _ _ _ _
              (Gives-checked c q head small May heights may answers (n - fast_check_number_count)
                (omega arith))
              (Gives-answer _))
        | inr near ↦ rw near (Gives-answer from)
      ]

  abbrev advanced : ℕ → ℕ → ℕ
  advanced n from =
      if ltb (u64 (from + 1)) n then (if q (u64 (from + 1)) then u64 (from + 1) else from) else from

  Gives-try_next :
      (n from : ℕ) → n ≤ head → Gives P (try_next_steps c n from) (ok (advanced n from))
  unfolding try_next_steps
  Gives-try_next n from le = elim (Bool-cases (ltb (u64 (from + 1)) n)) [
    | inl room ↦ rw room (
        Gives-then _ _ _ _
          (Gives-checked c q head small May heights may answers (u64 (from + 1)) (ground arith))
          (Gives-answer _))
    | inr none_left ↦ rw none_left (Gives-answer from)
  ]

  search_from-IsTurn :
      (n from : ℕ)
      → 0 < from
      → from + 1 < n
      → n ≤ head
      → q from ≡ true
      → (r : ℕ) × Gives P (search_from_steps c n from) (ok r) × IsTurn q from n r × (q r ≡ true)
  unfolding search_from_steps
  search_from-IsTurn n from pos lt le start =
      let far : (u64 (from + 1) == n) ≡ false = ground arith in
      let (r, found, turn) =
        from_to-IsTurn c q head small May heights may answers 64 search_fuel (advanced n from) n
          (ground arith) (ground arith) le (omega arith) (omega arith) in
      (
        r,
        rw far (
            Gives-then _ (advanced n from) _ _ (Gives-try_next n from le) (
              Gives-then _ r _ _ found (
                Gives-then _ tt _ _
                  (Gives-set c q head small May heights may answers r
                    (may r r (ground arith) (omega arith) (ground arith) (ground arith)))
                  (Gives-answer r)))),
        ground arith,
        ground arith,
      )

  module _ (n from : ℕ) (pos : 0 < from) (lt : from < n) (le : n ≤ head) (start : q from ≡ true)
      (closed : NoGaps q from n) where
    none_after : (d r : ℕ) → from ≤ r → q (r + 1) ≡ false → r + 1 + d < n → q (r + 1 + d) ≡ false
    none_after zero r ge no' room = let e : r + 1 + 0 ≡ r + 1 = omega arith in rw e no'
    none_after (suc d) r ge no' room =
        let e : r + 1 + suc d ≡ r + 1 + d + 1 = omega arith in
        let before = none_after d r ge no' (omega arith) in
        rw e (elim (Bool-cases (q (r + 1 + d + 1))) [
          | inl later ↦ cc (closed (r + 1 + d) (omega arith) (omega arith) later)
          | inr no_later ↦ no_later
        ])

    IsTurn-IsNewest : (lo r : ℕ) → from ≤ lo → IsTurn q lo n r → q r ≡ true → IsNewest q from n r
    IsTurn-IsNewest lo r ge turn yes' = record {
      above = omega arith;
      below = turn.below;
      holds = yes';
      none_later = λ h more room. elim turn.stops [
        | inl last ↦ absurd (omega arith)
        | inr no' ↦
            let e : h ≡ r + 1 + (h - (r + 1)) = omega arith in
            rw e (none_after (h - (r + 1)) r (omega arith) no' (omega arith))
      ];
    }

    pub query_above-IsNewest :
        (r : ℕ) × Gives P (query_above_steps c n from) (ok r) × IsNewest q from n r
    unfolding query_above_steps
    query_above-IsNewest =
        let differ : (n == from) ≡ false = ground arith in
        elim (Bool-cases (q (n - 1))) [
          | inl newest ↦ (
            n - 1,
            rw differ (
                Gives-then _ (q (n - 1)) _ _ (Gives-check_newest n (omega arith) le)
                  (rw newest (Gives-answer (n - 1)))),
            record {
              above = omega arith;
              below = omega arith;
              holds = newest;
              none_later = λ h more room. absurd (omega arith);
            },
          )
          | inr older ↦
              let (r, found, turn, yes') =
                search_from-IsTurn n (forwarded n from) (ground arith) (ground arith) le
                  (ground arith) in
              (
                r,
                rw differ (
                    Gives-then _ (q (n - 1)) _ _ (Gives-check_newest n (omega arith) le) (
                      rw older (
                        Gives-then _ (forwarded n from) _ _ (Gives-fast_forward n from le) found))),
                IsTurn-IsNewest (forwarded n from) r (ground arith) turn yes',
              )
        ]
