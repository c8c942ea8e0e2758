-- ===== src/Tests/Goroutines.antt =====
-- Several goroutines on the small world.
use blitz.Base.{
  ℕ, zero, suc, ◌≤◌, ◌≡◌, refl, true, false, List, [], ◌∷◌, ok, Result, leb, nat_eq, negsuc, arith,
}
use blitz.Finality.{query_finalized_block_in_babylon}
use blitz.Finality.Reference.{reference}
use blitz.Finality.Agreement.{Agrees}
use blitz.Threads.{run, wrapping, ◌>>=◌}
use blitz.Threads.System.{
  Event, arrives, runs, advance, go_on, add_last, get_elem?, happen, happens, runs_of,
}
use blitz.Threads.Answers.{Returned}
use blitz.Concurrent.{
  by_number_steps, check_finalized_steps, store_finalized_steps, is_block_finalized_steps,
  tally_steps, query_all_pk_power_steps, multi_fp_power_steps, btc_height_steps, voted_steps,
  block_by_number_steps, query_all_fp_btc_pub_keys_steps, fetch_all_fp_btc_pub_keys_steps,
  write_fps, read_fps, cached_steps, read_through_steps,
}
use blitz.Concurrent.Search.{query_finalized_block_steps}
use blitz.Concurrent.SearchAlone.{query_finalized_block-alone}
use blitz.Concurrent.Decisions.{asked_between, by_number-answered}
use blitz.Concurrent.Requests.{Request}
use blitz.Concurrent.Growth.{serving_on, serving-grows}
use blitz.Provider.Bounds.{IsBounded}
use blitz.Concurrent.Right.{IsRight, Decides}
use blitz.Concurrent.Found.{HeadsFit}
use blitz.Concurrent.Served.{Served, serving, serving_between, get_block_by_number-answered}
use blitz.Tests.Chain.{
  chain, clients, world, clients-IsStable, chain-DistinctHashes, reference-chain_small,
}
use blitz.Tests.Queries.{world-Agrees, program}
use blitz.Tests.Servers.{node}

-- Goroutines 0 and 1 take turns.
abbrev turns {ℓ} : {Q : Type ℓ} → ℕ → List (Event Q)
turns zero = []
turns (suc n) = runs 0 ∷ runs 1 ∷ turns n

runs_of-turns {ℓ} : (Q : Type ℓ) (n : ℕ) → n ≤ runs_of {Q = Q} 1 (turns n)
unfolding runs_of
runs_of-turns Q zero = omega arith
runs_of-turns Q (suc n) = omega (arith, runs_of-turns Q n)

-- One goroutine asks about block 3, and has begun when the other comes in.
abbrev begun : List (Event ℕ)
begun = arrives 3 ∷ runs 0 ∷ runs 0 ∷ []

by_number-answered_example :
    Returned (asked_between clients world begun 4 (turns 18)) 1 4 (reference chain 4)
    × Agrees chain (asked_between clients world begun 4 (turns 18)).shared.provider
unfolding happens happen go_on add_last
by_number-answered_example =
    by_number-answered clients chain world begun (turns 18) 4 clients-IsStable chain-DistinctHashes
      world-Agrees (runs_of-turns ℕ 18)

alone_it_agrees :
    run (query_finalized_block_steps clients) world ≡ query_finalized_block_in_babylon clients world
alone_it_agrees = query_finalized_block-alone clients world

abbrev finalized : Request
finalized = record { number = negsuc 2; full_tx = true }

abbrev coming : List (Event Request)
coming = arrives finalized ∷ runs 0 ∷ runs 0 ∷ runs 0 ∷ []

clients-HeadsFit : HeadsFit clients
clients-HeadsFit t n e = let same : n ≡ 5 = ground arith in rw same (omega arith, omega arith)

chain-Decides : Decides chain (λ h. leb h 3)
chain-Decides = record {
  decided = reference-chain_small;
  first = refl;
  closed = λ h pos later. ground arith;
}

start-IsRight : IsRight (λ h. leb h 3) 0
start-IsRight = record { small = omega arith; holds = refl }

get_block_by_number-answered_example :
    (r : Result node.Raw) × Returned
      (serving_between clients node world coming finalized (turns 1293))
      1
      finalized
      r
    × Served clients
        (λ h. leb h 3)
        (serving clients node world coming).shared.instant
        node
        finalized
        r
unfolding happens happen go_on add_last
get_block_by_number-answered_example =
    get_block_by_number-answered clients chain (λ h. leb h 3) node world coming (turns 1293)
      finalized clients-IsStable chain-DistinctHashes chain-Decides clients-HeadsFit world-Agrees
      start-IsRight (runs_of-turns Request 1293)

serving-grows_example :
    ((serving clients node world coming).shared.last_finalized_height
      ≤ (serving_on clients node world coming (turns 40)).shared.last_finalized_height)
    × IsBounded (serving_on clients node world coming (turns 40)).shared.provider
serving-grows_example = serving-grows clients node world coming (turns 40) (omega arith)

unfoldable all_steps : Unit {0}
unfolding program advance go_on add_last get_elem? happen happens by_number_steps
    check_finalized_steps store_finalized_steps is_block_finalized_steps tally_steps
    query_all_pk_power_steps multi_fp_power_steps btc_height_steps voted_steps block_by_number_steps
    query_all_fp_btc_pub_keys_steps fetch_all_fp_btc_pub_keys_steps write_fps read_fps cached_steps
    read_through_steps wrapping ◌>>=◌
all_steps = tt

-- Both are answered.
first_is_finalized : Returned (asked_between clients world begun 4 (turns 18)) 0 3 (ok true)
unfolding all_steps
first_is_finalized = refl

second_is_not : Returned (asked_between clients world begun 4 (turns 18)) 1 4 (ok false)
unfolding all_steps
second_is_not = refl
