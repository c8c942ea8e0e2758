-- ===== src/Concurrent/Found.antt =====
-- What a query of finality-gadget/rpc/provider finds among others, on chains whose answers do not
-- change.
use blitz.Base.{
  ℕ, ◌^◌, ◌≤◌, ◌<◌, ◌≡◌, refl, Bool, true, Result, ok, err, Reply, value, fails, client, wrap,
  received, map_err, integer_eq, arith, String, sym,
}
use mathlib.Core.Path.{subst}
use blitz.Exec.{gets}
use blitz.Clients.{Clients}
use blitz.Provider.{World, ask, get_last_finalized}
use blitz.Finality.Reference.{Snapshot, IsStable, DistinctHashes}
use blitz.Threads.{locked, resume, ◌>>=◌}
use blitz.Threads.Guarded.{Guarded, Guarded-weaken}
use blitz.Threads.Sections.{Each-Guarded}
use blitz.Threads.Answers.{Since}
use blitz.Concurrent.Search.{query_above_steps, query_finalized_block_steps}
use blitz.Concurrent.Right.{IsLatest, Decides, Fit, start}
use blitz.Concurrent.Latest.{query_above-IsLatest}
use blitz.Concurrent.Bounded.{instant_of, IsTimely, query_above-IsTimely}

-- The head of L2 is a block from 1 on, below 2^63.
abbrev pub HeadsFit : Clients → Type 0
HeadsFit c = (t n : ℕ) → c.block_number t ≡ value n → (0 < n) × (n < 2 ^ 63)

module _ (c : Clients) (q : ℕ → Bool) (t : ℕ) where
  -- What the query finds from the instant `t` on: an error of the node for the head, or the latest
  -- finalized block below the head at that instant or later.
  pub data Found : Result ℕ → Type 0 where
    no_head :
        (u : ℕ) (m : String)
        → t ≤ u
        → c.block_number u ≡ fails m
        → Found (err (wrap "failed to got blockNumber" (client m)))
    latest : (u n a : ℕ) → t ≤ u → c.block_number u ≡ value n → IsLatest q n a → Found (ok a)

abbrev pub Steady : Snapshot → (ℕ → Bool) → ℕ → World → Type 0
Steady s q t = Since (Fit s q) instant_of t

start_pos : (last : ℕ) → 0 < start last
start_pos last = ground arith

module _ (c : Clients) (s : Snapshot) (q : ℕ → Bool) (stable : IsStable c s)
    (distinct : DistinctHashes s) (d : Decides s q) (heads : HeadsFit c) (t : ℕ) where
  above-Found :
      (u n from : ℕ)
      → t ≤ u
      → c.block_number u ≡ value n
      → 0 < from
      → from < 2 ^ 63
      → q from ≡ true
      → Guarded (Steady s q t) (Found c q t) (query_above_steps c n from)
  above-Found u n from le head pos' small holds =
      let (r, gives, latest') =
        query_above-IsLatest c s q stable distinct d n from (heads u n head).0 (heads u n head).1
          pos' small holds in
      Guarded-weaken (Steady s q t) _ _ _
        (λ x e. subst (Found c q t) (sym e) (Found.latest u n r le head latest'))
        (Each-Guarded IsTimely _ (λ w. t ≤ w.instant) _ 1290 _
          (λ g forward w before. omega (arith, forward w, before)) gives.sections
          (query_above-IsTimely c n from).each)

  last-Found :
      (u n : ℕ)
      → t ≤ u
      → c.block_number u ≡ value n
      → Guarded
          (Steady s q t)
          (Found c q t)
          (locked get_last_finalized >>= λ last. query_above_steps c n (start last))
  unfolding Guarded ◌>>=◌ get_last_finalized gets
  last-Found u n le head w ((agrees, right), before) = (
    ((agrees, right), before),
    above-Found u n _ le head (start_pos w.last_finalized_height) right.small right.holds,
  )

  head-Found :
      (u : ℕ) (reply : Reply ℕ)
      → t ≤ u
      → c.block_number u ≡ reply
      → Guarded (Steady s q t) (Found c q t) (
          resume
            (map_err (wrap "failed to got blockNumber") (received reply))
            (λ n. locked get_last_finalized >>= λ last. query_above_steps c n (start last)))
  unfolding Guarded
  head-Found u (fails m) le e = Found.no_head u m le e
  head-Found u (value n) le e = last-Found u n le e

  pub query-Found : Guarded (Steady s q t) (Found c q t) (query_finalized_block_steps c)
  unfolding Guarded ◌>>=◌ query_finalized_block_steps ask
  query-Found w ((agrees, right), before) =
      (((agrees, right), omega (arith, before)), head-Found w.instant _ before refl)
