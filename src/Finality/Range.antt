-- ===== src/Finality/Range.antt =====
-- The search ends, and its answer lies in the interval that it searched, whatever the clients answer.
use blitz.Base.{
  ℕ, zero, suc, ◌+◌, ◌-◌, ◌/◌, ◌^◌, ◌≤◌, ◌<◌, ◌≡◌, refl, ltb, ◌==◌, ◌&&◌, nat_eq, u64, arith, value,
  if◌then◌else◌,
}
use native.Mathlib.Nat.{pow-suc}
use blitz.Exec.{Exec, ◌>>=◌, gets}
use blitz.Exec.Yields.{
  Yields, Good, Yields-pure, Yields-if, Yields-wrapf, Yields-recover, Yields-modify, Yields-bind,
  Yields-weaken,
}
use blitz.Clients.{Clients}
use blitz.Provider.{World, set_last_finalized, get_last_finalized, ask}
use blitz.Finality.{
  search_between, query_finalized_block_in_babylon_from_to, search_fuel, check_newest, fast_forward,
  try_next, search_from, query_above, query_finalized_block_in_babylon, fast_check_number_count,
}

abbrev pub Between : ℕ → ℕ → ℕ → Type 0
Between lo hi r = (lo ≤ r) × (r ≤ hi)

-- The probe of an interval with a number strictly inside, and both halves.
pub halves : (k from to : ℕ) → to < 2 ^ 63 → from + 2 ≤ to → to ≤ from + 2 ^ suc k → record {
  above : from < u64 (from + to + 1) / 2;
  below : u64 (from + to + 1) / 2 < to;
  lower : u64 (from + to + 1) / 2 ≤ from + 2 ^ k;
  upper : to ≤ u64 (from + to + 1) / 2 + 2 ^ k;
}
halves k from to small wide fits = omega (arith, pow-suc 2 k)

module _ (c : Clients) where
  Yields-set : (h : ℕ) → Yields (λ _. Unit) (set_last_finalized h)
  unfolding set_last_finalized
  Yields-set h = Yields-modify _

  Yields-search_between :
      (again : ℕ → ℕ → Exec World ℕ) (from to : ℕ)
      → from ≤ to
      → (from + 2 ≤ to
          → (check : ℕ) → check ≡ u64 (from + to + 1) / 2
          → Yields (Between from to) (again check to) × Yields (Between from to) (again from check))
      → to < 2 ^ 63
      → Yields (Between from to) (search_between c again from to)
  unfolding search_between
  Yields-search_between again from to le rec small =
      Yields-if (from == to) _ _ (λ e. Yields-pure to (ground arith))
        λ ne.
          Yields-if (u64 (from + 1) == to) _ _ (λ e. Yields-pure from (ground arith))
            λ far.
              let both = rec (ground arith) (u64 (from + to + 1) / 2) refl in
              Yields-bind _ _ (Yields-wrapf _ _ _) λ is_finalized _.
                Yields-if is_finalized _ _ (λ _. Yields-bind _ _ (Yields-set _) (λ _ _. both.0))
                  (λ _. both.1)

  Yields-from_to :
      (k fuel from to : ℕ)
      → from ≤ to
      → to < 2 ^ 63
      → to ≤ from + 2 ^ k
      → k < fuel
      → Yields (Between from to) (query_finalized_block_in_babylon_from_to c fuel from to)
  unfolding query_finalized_block_in_babylon_from_to
  Yields-from_to k zero from to le small fits more = elim more [ ]
  Yields-from_to zero (suc fuel) from to le small fits more =
      Yields-if (ltb to from) _ _ (λ swapped. absurd (ground arith))
        λ _. Yields-search_between _ from to le (λ wide. absurd (omega arith)) small
  Yields-from_to (suc k) (suc fuel) from to le small fits more =
      Yields-if (ltb to from) _ _ (λ swapped. absurd (ground arith))
        λ _.
          Yields-search_between _ from to le
            (λ wide check e.
              let h = halves k from to small wide fits in
              (
                Yields-weaken _ (λ r b. omega arith)
                    (Yields-from_to k fuel check to (omega arith) small (omega arith)
                      (omega arith)),
                Yields-weaken _ (λ r b. omega arith)
                    (Yields-from_to k fuel from check (omega arith) (omega arith) (omega arith)
                      (omega arith)),
              ))
            small

  Yields-fast_forward : (n from : ℕ) → from ≤ n → Yields (Between from n) (fast_forward c n from)
  unfolding fast_forward
  Yields-fast_forward n from le =
      Yields-if (ltb fast_check_number_count n && ltb from (n - fast_check_number_count)) _ _
        (λ ahead.
          Yields-bind _ _ (Yields-wrapf _ _ _) λ is_finalized _. Yields-pure _ (ground arith))
        (λ _. Yields-pure from (omega arith))

  Yields-try_next :
      (n from : ℕ) → from ≤ n → n < 2 ^ 63 → Yields (Between from n) (try_next c n from)
  unfolding try_next
  Yields-try_next n from le small =
      Yields-if (ltb (u64 (from + 1)) n) _ _
        (λ ahead.
          Yields-bind _ _ (Yields-wrapf _ _ _) λ is_finalized _. Yields-pure _ (ground arith))
        (λ _. Yields-pure from (omega arith))

  Yields-search_from :
      (n from : ℕ) → from ≤ n → n < 2 ^ 63 → Yields (Between from n) (search_from c n from)
  unfolding search_from
  Yields-search_from n from le small =
      Yields-if (u64 (from + 1) == n) _ _
        (λ next.
          Yields-bind _ _ (Yields-wrapf _ _ _) λ is_finalized _. Yields-pure _ (ground arith))
        (λ _. Yields-bind _ _ (Yields-try_next n from le small) λ lo b.
          Yields-bind _ _ (Yields-from_to 64 search_fuel lo n b.1 small (omega arith) (omega arith))
            λ res between. Yields-bind _ _ (Yields-set res) λ _ _. Yields-pure res (omega arith))

  pub Yields-query_above :
      (n from : ℕ) → from ≤ n → n < 2 ^ 63 → Yields (Between from n) (query_above c n from)
  unfolding query_above check_newest
  Yields-query_above n from le small =
      Yields-if (n == from) _ _ (λ e. Yields-pure n (omega arith))
        λ ne. Yields-bind _ _ newest λ is_newest _.
          Yields-if is_newest _ _ (λ _. Yields-pure (n - 1) (ground arith))
            λ _.
              Yields-bind _ _ (Yields-fast_forward n from le) λ lo b.
                Yields-weaken _ (λ r between. omega arith) (Yields-search_from n lo b.1 small)
    where
      newest : Yields (λ _. Unit) (check_newest c n)
      newest =
          Yields-if (ltb 1 n) _ _
            (λ _. Yields-bind _ _ (Yields-recover _) (λ _ _. Yields-pure _ tt))
            (λ _. Yields-pure _ tt)

-- From a lower to a higher block number below 2^63 that are at most 2^k apart, `k + 1` rounds are
-- enough for the search whatever the clients answer: it never runs out of rounds, and a number
-- that it returns lies between the two.
pub from_to-ends :
    (c : Clients) (w : World) (k fuel from to : ℕ)
    → from ≤ to
    → to < 2 ^ 63
    → to ≤ from + 2 ^ k
    → k < fuel
    → Good (Between from to) (query_finalized_block_in_babylon_from_to c fuel from to w).0
from_to-ends c w k fuel from to le small fits more =
    (Yields-from_to c k fuel from to le small fits more).at w

-- `fromBlockHeight` at the start of the query.
abbrev pub search_start : World → ℕ
search_start w = if w.last_finalized_height == 0 then 1 else w.last_finalized_height

abbrev pub later : World → World
later w = record w { instant = w.instant + 1 }

pub query_finalized_block-answered :
    (c : Clients) (w : World) (n : ℕ)
    → c.block_number w.instant ≡ value n
    → query_finalized_block_in_babylon c w ≡ query_above c n (search_start w) (later w)
unfolding query_finalized_block_in_babylon ◌>>=◌ ask get_last_finalized gets
query_finalized_block-answered c w n answer = rw answer

-- Whatever the clients answer, with the head of L2 at least 1, below 2^63 and not behind the last
-- finalized block, the query ends, and it returns an error or a block number from the last
-- finalized one up to the head.
pub query_finalized_block-in_range :
    (c : Clients) (w : World) (n : ℕ)
    → c.block_number w.instant ≡ value n
    → 0 < n
    → n < 2 ^ 63
    → w.last_finalized_height ≤ n
    → Good (Between w.last_finalized_height n) (query_finalized_block_in_babylon c w).0
query_finalized_block-in_range c w n answer pos small le =
    rw (query_finalized_block-answered c w n answer) (
      (Yields-weaken _ (λ r b. ground arith)
          (Yields-query_above c n (search_start w) (ground arith) small)).at
        (later w))
