-- ===== src/Concurrent/Searching.antt =====
-- The sections of the search and of a request (finality-gadget/rpc), at most 1,293: those of the
-- query of a block, and the write of `lastFinalizedHeight`.
use blitz.Base.{
  ℕ, zero, suc, ◌+◌, ◌-◌, ◌*◌, false, ◌&&◌, u64, ltb, ◌==◌, nat_eq, integer_eq, out_of_fuel, arith,
}
use blitz.Clients.{Clients}
use blitz.Provider.{World, get_last_finalized, set_last_finalized}
use blitz.Finality.{fast_check_number_count, search_fuel}
use blitz.Rpc.{EthRpc, call_by_number}
use blitz.Threads.{Steps}
use blitz.Threads.Sections.{
  Sections, Sections-answer, Sections-abort, Sections-locked, Sections-wrapping, Sections-recover,
  Sections-if, Sections-bind, Sections-more,
}
use blitz.Concurrent.Search.{
  checked_steps, search_between_steps, from_to_steps, check_newest_steps, fast_forward_steps,
  try_next_steps, search_from_steps, query_above_steps, query_finalized_block_steps,
}
use blitz.Concurrent.Listing.{Covers, Sections-ask, Sections-gets, by_number-Sections}
use blitz.Concurrent.Requests.{Request, get_block_by_number_steps}

module _ {T : (World → World) → Type 0} (covers : Covers T)
    (heights : (n : ℕ) → T (λ w. (set_last_finalized n w).1)) where
  module _ (c : Clients) where
    checked-Sections : (n : ℕ) → Sections T 18 (checked_steps c n)
    checked-Sections n = Sections-wrapping _ _ (by_number-Sections covers c n)

    between-Sections :
        (m : ℕ) (p : ℕ → ℕ → Steps World ℕ)
        → ((from to : ℕ) → Sections T m (p from to))
        → (from to : ℕ) → Sections T (18 + (1 + m)) (search_between_steps c p from to)
    unfolding search_between_steps
    between-Sections m p again from to = Sections-if (from == to) _ _ (Sections-answer to) (
        Sections-if (u64 (from + 1) == to) _ _ (Sections-answer from) (
          Sections-bind 18 (1 + m) _ _ (checked-Sections _) (λ b.
            Sections-if b _ _
              (Sections-bind 1 m _ _ (Sections-locked _ (heights _)) (λ _. again _ _))
              (Sections-more m _ (omega arith) (again _ _)))))

    from_to-Sections : (fuel from to : ℕ) → Sections T (19 * fuel) (from_to_steps c fuel from to)
    unfolding from_to_steps
    from_to-Sections zero from to = Sections-abort out_of_fuel
    from_to-Sections (suc fuel) from to = Sections-more (18 + (1 + 19 * fuel)) _ (omega arith) (
        Sections-if (ltb to from) _ _
          (between-Sections (19 * fuel) _ (from_to-Sections fuel) to from)
          (between-Sections (19 * fuel) _ (from_to-Sections fuel) from to))

    check_newest-Sections : (n : ℕ) → Sections T 18 (check_newest_steps c n)
    unfolding check_newest_steps
    check_newest-Sections n =
        Sections-if (ltb 1 n) _ _
          (Sections-bind 18 0 _ _ (Sections-recover _ (by_number-Sections covers c (n - 1)))
            (λ res. Sections-answer _))
          (Sections-answer false)

    fast_forward-Sections : (n from : ℕ) → Sections T 18 (fast_forward_steps c n from)
    unfolding fast_forward_steps
    fast_forward-Sections n from =
        Sections-if (ltb fast_check_number_count n && ltb from (n - fast_check_number_count)) _ _
          (Sections-bind 18 0 _ _ (checked-Sections _) (λ b. Sections-answer _))
          (Sections-answer from)

    try_next-Sections : (n from : ℕ) → Sections T 18 (try_next_steps c n from)
    unfolding try_next_steps
    try_next-Sections n from =
        Sections-if (ltb (u64 (from + 1)) n) _ _
          (Sections-bind 18 0 _ _ (checked-Sections _) (λ b. Sections-answer _))
          (Sections-answer from)

    search_from-Sections : (n from : ℕ) → Sections T 1254 (search_from_steps c n from)
    unfolding search_from_steps
    search_from-Sections n from =
        Sections-if (u64 (from + 1) == n) _ _
          (Sections-more 18 _ (omega arith)
            (Sections-bind 18 0 _ _ (checked-Sections n) (λ b. Sections-answer _)))
          (Sections-bind 18 1236 _ _ (try_next-Sections n from) (λ start.
            Sections-bind 1235 1 _ _ (from_to-Sections search_fuel start n) (λ res.
              Sections-bind 1 0 _ _ (Sections-locked _ (heights res)) (λ _. Sections-answer res))))

    pub query_above-Sections : (n from : ℕ) → Sections T 1290 (query_above_steps c n from)
    unfolding query_above_steps
    query_above-Sections n from = Sections-if (n == from) _ _ (Sections-answer n) (
        Sections-bind 18 1272 _ _ (check_newest-Sections n) (λ b.
          Sections-if b _ _ (Sections-answer _) (
            Sections-bind 18 1254 _ _ (fast_forward-Sections n from)
              (λ start. search_from-Sections n start))))

    query_finalized_block-Sections : Sections T 1292 (query_finalized_block_steps c)
    unfolding query_finalized_block_steps get_last_finalized
    query_finalized_block-Sections =
        Sections-bind 1 1291 _ _ (Sections-ask covers _ _) (λ n.
          Sections-bind 1 1290 _ _ (Sections-gets covers _) (λ last. query_above-Sections n _))

    module _ (rpc : EthRpc) where
      pub get_block_by_number-Sections :
          (request : Request) → Sections T 1293 (get_block_by_number_steps c rpc request)
      unfolding get_block_by_number_steps call_by_number
      get_block_by_number-Sections request =
          Sections-if (request.number == rpc.finalized_block_number) _ _
            (Sections-bind 1292 1 _ _ (Sections-wrapping _ _ query_finalized_block-Sections)
              (λ n. Sections-ask covers _ _))
            (Sections-ask covers _ _)
