-- ===== src/Concurrent/SearchAlone.antt =====
-- The search of finality-gadget/rpc/provider that nothing interrupts.
use blitz.Base.{ℕ, zero, suc, ◌+◌, ◌-◌, ◌≡◌, false, ◌&&◌, u64, ltb, ◌==◌, nat_eq, out_of_fuel}
use blitz.Exec.{Exec}
use blitz.Clients.{Clients}
use blitz.Provider.{World}
use blitz.Finality.{
  fast_check_number_count, checked_by_number, search_between, search_fuel,
  query_finalized_block_in_babylon_from_to, check_newest, fast_forward, try_next, search_from,
  query_above, query_finalized_block_in_babylon,
}
use blitz.Threads.{Steps, run}
use blitz.Threads.Runs.{
  Runs, Runs-answer, Runs-abort, Runs-locked, Runs-wrapping, Runs-recover, Runs-if, Runs-bind,
}
use blitz.Concurrent.Search.{
  checked_steps, search_between_steps, from_to_steps, check_newest_steps, fast_forward_steps,
  try_next_steps, search_from_steps, query_above_steps, query_finalized_block_steps,
}
use blitz.Concurrent.Alone.{by_number-Runs}

module _ (c : Clients) where
  checked-Runs : (n : ℕ) → Runs (checked_steps c n) (checked_by_number c n)
  checked-Runs n = Runs-wrapping _ _ _ (by_number-Runs c n)

  between-Runs :
      (p : ℕ → ℕ → Steps World ℕ) (m : ℕ → ℕ → Exec World ℕ)
      → ((from to : ℕ) → Runs (p from to) (m from to))
      → (from to : ℕ) → Runs (search_between_steps c p from to) (search_between c m from to)
  unfolding search_between_steps search_between
  between-Runs p m again from to = Runs-if (from == to) _ _ _ _ (Runs-answer to) (
      Runs-if (u64 (from + 1) == to) _ _ _ _ (Runs-answer from) (
        Runs-bind _ _ _ _ (checked-Runs _) (λ b.
          Runs-if b _ _ _ _ (Runs-bind _ _ _ _ (Runs-locked _) (λ _. again _ _)) (again _ _))))

  from_to-Runs :
      (fuel from to : ℕ)
      → Runs
          (from_to_steps c fuel from to)
          (query_finalized_block_in_babylon_from_to c fuel from to)
  unfolding from_to_steps query_finalized_block_in_babylon_from_to
  from_to-Runs zero from to = Runs-abort out_of_fuel
  from_to-Runs (suc fuel) from to =
      Runs-if (ltb to from) _ _ _ _ (between-Runs _ _ (from_to-Runs fuel) to from)
        (between-Runs _ _ (from_to-Runs fuel) from to)

  check_newest-Runs : (n : ℕ) → Runs (check_newest_steps c n) (check_newest c n)
  unfolding check_newest_steps check_newest
  check_newest-Runs n =
      Runs-if (ltb 1 n) _ _ _ _
        (Runs-bind _ _ _ _ (Runs-recover _ _ (by_number-Runs c (n - 1))) (λ res. Runs-answer _))
        (Runs-answer false)

  fast_forward-Runs : (n from : ℕ) → Runs (fast_forward_steps c n from) (fast_forward c n from)
  unfolding fast_forward_steps fast_forward
  fast_forward-Runs n from =
      Runs-if (ltb fast_check_number_count n && ltb from (n - fast_check_number_count)) _ _ _ _
        (Runs-bind _ _ _ _ (checked-Runs _) (λ b. Runs-answer _)) (Runs-answer from)

  try_next-Runs : (n from : ℕ) → Runs (try_next_steps c n from) (try_next c n from)
  unfolding try_next_steps try_next
  try_next-Runs n from =
      Runs-if (ltb (u64 (from + 1)) n) _ _ _ _
        (Runs-bind _ _ _ _ (checked-Runs _) (λ b. Runs-answer _)) (Runs-answer from)

  search_from-Runs : (n from : ℕ) → Runs (search_from_steps c n from) (search_from c n from)
  unfolding search_from_steps search_from
  search_from-Runs n from =
      Runs-if (u64 (from + 1) == n) _ _ _ _
        (Runs-bind _ _ _ _ (checked-Runs n) (λ b. Runs-answer _))
        (Runs-bind _ _ _ _ (try_next-Runs n from) (λ start.
          Runs-bind _ _ _ _ (from_to-Runs search_fuel start n)
            (λ res. Runs-bind _ _ _ _ (Runs-locked _) (λ _. Runs-answer res))))

  pub query_above-Runs : (n from : ℕ) → Runs (query_above_steps c n from) (query_above c n from)
  unfolding query_above_steps query_above
  query_above-Runs n from = Runs-if (n == from) _ _ _ _ (Runs-answer n) (
      Runs-bind _ _ _ _ (check_newest-Runs n) (λ b.
        Runs-if b _ _ _ _ (Runs-answer _)
          (Runs-bind _ _ _ _ (fast_forward-Runs n from) (λ start. search_from-Runs n start))))

  pub query_finalized_block-Runs :
      Runs (query_finalized_block_steps c) (query_finalized_block_in_babylon c)
  unfolding query_finalized_block_steps query_finalized_block_in_babylon
  query_finalized_block-Runs =
      Runs-bind _ _ _ _ (Runs-locked _)
        (λ n. Runs-bind _ _ _ _ (Runs-locked _) (λ last. query_above-Runs n _))

-- With nobody else running, the sections that the search is cut into return what the search as a
-- whole returns, and leave the same provider.
pub query_finalized_block-alone :
    (c : Clients) (w : World)
    → run (query_finalized_block_steps c) w ≡ query_finalized_block_in_babylon c w
query_finalized_block-alone c w = (query_finalized_block-Runs c).same w
