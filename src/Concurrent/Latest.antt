-- ===== src/Concurrent/Latest.antt =====
-- The query of finality-gadget/rpc/provider beside others that move `lastFinalizedHeight`: whatever
-- it reads there, it finds a finalized block that no finalized one follows below the head.
use blitz.Base.{
  ℕ, suc, ◌+◌, ◌-◌, ◌^◌, ◌≤◌, ◌<◌, ◌≡◌, refl, sym, Bool, true, false, ltb, ◌==◌, nat_eq, u64, ok,
  arith,
}
use mathlib.Core.Path.{subst}
use native.Mathlib.Decide.{dec_lt}
use blitz.Clients.{Clients}
use blitz.Provider.{World}
use blitz.Finality.{search_fuel}
use blitz.Finality.Newest.{IsNewest}
use blitz.Finality.Reference.{Snapshot, IsStable, DistinctHashes}
use blitz.Threads.Guarded.{Gives, Gives-answer, Gives-then}
use blitz.Concurrent.{by_number_steps}
use blitz.Concurrent.Search.{
  from_to_steps, search_from_steps, try_next_steps, query_above_steps, check_newest_steps,
  fast_forward_steps,
}
use blitz.Concurrent.Turn.{Gives-set, from_to-IsTurn}
use blitz.Concurrent.Newest.{Gives-check_newest, query_above-IsNewest}
use blitz.Concurrent.Right.{IsLatest, Decides, Fit, May, Preserves-heights, below, may, answers}

module _ (c : Clients) (s : Snapshot) (q : ℕ → Bool) (stable : IsStable c s)
    (distinct : DistinctHashes s) (d : Decides s q) where
  abbrev Steady : World → Type 0
  Steady = Fit s q

  finds : (h : ℕ) → h ≤ 2 ^ 63 - 1 → Gives Steady (by_number_steps c h) (ok (q h))
  finds = answers s q d c stable distinct

  -- A head of 1 that was read before others have moved on: the search goes down to it.
  swapped :
      (fuel from : ℕ)
      → 1 < from
      → from_to_steps c (suc fuel) from 1 ≡ from_to_steps c (suc fuel) 1 from
  unfolding from_to_steps
  swapped fuel from lt =
      let down : ltb 1 from ≡ true = ground arith in
      let up : ltb from 1 ≡ false = ground arith in rw (down, up) refl

  try_next_at_one :
      (from : ℕ) → 1 < from → from < 2 ^ 63 → Gives Steady (try_next_steps c 1 from) (ok from)
  unfolding try_next_steps
  try_next_at_one from lt small =
      let beyond : ltb (u64 (from + 1)) 1 ≡ false = ground arith in rw beyond (Gives-answer from)

  search_at_one :
      (from r : ℕ)
      → 1 < from
      → from < 2 ^ 63
      → May q r
      → Gives Steady (from_to_steps c search_fuel 1 from) (ok r)
      → Gives Steady (search_from_steps c 1 from) (ok r)
  unfolding search_from_steps
  search_at_one from r lt small m found =
      let far : (u64 (from + 1) == 1) ≡ false = ground arith in
      rw far (
        Gives-then _ from _ _ (try_next_at_one from lt small) (
          Gives-then _ r _ _ (subst (λ p. Gives Steady p (ok r)) (sym (swapped 64 from lt)) found) (
            Gives-then _ tt _ _
              (Gives-set c q (2 ^ 63 - 1) (omega arith) (May q) (Preserves-heights s q) (may s q d)
                finds r m)
              (Gives-answer r))))

  query_at_one :
      (from r : ℕ)
      → 1 < from
      → Gives Steady (search_from_steps c 1 from) (ok r)
      → Gives Steady (query_above_steps c 1 from) (ok r)
  unfolding query_above_steps check_newest_steps fast_forward_steps
  query_at_one from r lt found =
      let differ : (1 == from) ≡ false = ground arith in
      rw differ (
        Gives-then _ false _ _ (Gives-answer false)
          (Gives-then _ from _ _ (Gives-answer from) found))

  at_one-IsLatest :
      (from : ℕ)
      → 1 < from
      → from < 2 ^ 63
      → q from ≡ true
      → (r : ℕ) × Gives Steady (query_above_steps c 1 from) (ok r) × IsLatest q 1 r
  at_one-IsLatest from lt small yes' =
      let (r, found, turn) =
        from_to-IsTurn c q (2 ^ 63 - 1) (omega arith) (May q) (Preserves-heights s q) (may s q d)
          finds 64 search_fuel 1 from (omega arith) lt (omega arith) (omega arith) (omega arith) in
      let holds = below s q d r from (omega (arith, turn.above)) (omega (arith, turn.below)) yes' in
      (
        r,
        query_at_one from r lt (
            search_at_one from r lt small
              (omega (arith, turn.above), omega (arith, turn.below), holds) found),
        record {
          small = omega (arith, turn.below);
          holds = holds;
          none_later = λ h more room. absurd (omega (arith, turn.above));
        },
      )

  -- The start is beyond the head: the block below the head is finalized with it.
  query_behind :
      (n from : ℕ)
      → 1 < n
      → n < from
      → from < 2 ^ 63
      → q from ≡ true
      → Gives Steady (query_above_steps c n from) (ok (n - 1))
  unfolding query_above_steps
  query_behind n from big lt small yes' =
      let differ : (n == from) ≡ false = ground arith in
      let newest = below s q d (n - 1) from (omega arith) (omega arith) yes' in
      rw differ (
        Gives-then _ (q (n - 1)) _ _
          (Gives-check_newest c q (2 ^ 63 - 1) (omega arith) (May q) (Preserves-heights s q)
            (may s q d) finds n big (omega arith))
          (rw newest (Gives-answer (n - 1))))

  query_equal : (n : ℕ) → Gives Steady (query_above_steps c n n) (ok n)
  unfolding query_above_steps
  query_equal n = let same : (n == n) ≡ true = ground arith in rw same (Gives-answer n)

  IsNewest-IsLatest : (from n r : ℕ) → n < 2 ^ 63 → IsNewest q from n r → IsLatest q n r
  IsNewest-IsLatest from n r small newest = record {
    small = omega (arith, newest.below);
    holds = newest.holds;
    none_later = newest.none_later;
  }

  pub query_above-IsLatest :
      (n from : ℕ)
      → 0 < n
      → n < 2 ^ 63
      → 0 < from
      → from < 2 ^ 63
      → q from ≡ true
      → (r : ℕ) × Gives Steady (query_above_steps c n from) (ok r) × IsLatest q n r
  query_above-IsLatest n from some_head small pos fits yes' = elim (dec_lt from n) [
    | yes ahead ↦
        let (r, found, newest) =
          query_above-IsNewest c q (2 ^ 63 - 1) (omega arith) (May q) (Preserves-heights s q)
            (may s q d) finds n from pos ahead (omega arith) yes'
            (λ h ge room. d.closed h (omega arith)) in
        (r, found, IsNewest-IsLatest from n r small newest)
    | no not_ahead ↦ elim (dec_lt n from) [
      | no not_behind ↦
          let same : from ≡ n = omega arith in
          let holds : q n ≡ true = rw same at yes' in
          (
            n,
            rw same (query_equal n),
            record {
              small = small;
              holds = holds;
              none_later = λ h more room. absurd (omega arith);
            },
          )
      | yes behind ↦ elim (dec_lt 1 n) [
        | yes big ↦ (
          n - 1,
          query_behind n from big behind fits yes',
          record {
            small = omega arith;
            holds = below s q d (n - 1) from (omega arith) (omega arith) yes';
            none_later = λ h more room. absurd (omega arith);
          },
        )
        | no one ↦
            let same : n ≡ 1 = omega arith in rw same (at_one-IsLatest from (omega arith) fits yes')
      ]
    ]
  ]
