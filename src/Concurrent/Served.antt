-- ===== src/Concurrent/Served.antt =====
-- Many goroutines that serve requests (finality-gadget/rpc), on chains whose answers do not change.
use blitz.Base.{
  ℕ, ◌^◌, ◌≤◌, ◌≡◌, refl, Bool, true, false, List, [], Result, ok, err, Error, value, fails, client,
  wrap, received, map_err, pos, int64, ltb, ◌==◌, integer_eq, length, arith, String, Bool-cases,
  inl, inr, sym,
}
use mathlib.Core.Path.{subst}
use blitz.Clients.{Clients}
use blitz.Provider.{World}
use blitz.Finality.Reference.{Snapshot, IsStable, DistinctHashes}
use blitz.Finality.Agreement.{Agrees}
use blitz.Rpc.{EthRpc}
use blitz.Rpc.Answers.{call_by_number-received}
use blitz.Threads.Guarded.{Guarded, Guarded-bind, Guarded-wrapping}
use blitz.Threads.System.{Event, System, arrives, happen, happens, runs_of}
use blitz.Threads.Answers.{Returned, happens-answered}
use blitz.Concurrent.Right.{IsLatest, IsRight, Decides, Fit}
use blitz.Concurrent.Requests.{Request, call_by_number_steps, get_block_by_number_steps}
use blitz.Concurrent.Bounded.{instant_of, get_block_by_number-IsTimely}
use blitz.Concurrent.Found.{HeadsFit, Found, Steady, query-Found}

module _ (c : Clients) (q : ℕ → Bool) (t : ℕ) where
  module _ (rpc : EthRpc) (request : Request) where
    -- The answer to a request that came in at the instant `t`.
    pub data Served : Result rpc.Raw → Type 0 where
      no_head :
          (u : ℕ) (m : String)
          → (request.number == rpc.finalized_block_number) ≡ true
          → t ≤ u
          → c.block_number u ≡ fails m
          → Served (
              err (
                wrap "failed to QueryFinalizedBlockInBabylon"
                  (wrap "failed to got blockNumber" (client m))))
      latest :
          (u n a v : ℕ)
          → (request.number == rpc.finalized_block_number) ≡ true
          → t ≤ u
          → c.block_number u ≡ value n
          → IsLatest q n a
          → t ≤ v
          → Served (received (rpc.call_context v (rpc.string (pos a)) request.full_tx))
      passed_on :
          (v : ℕ)
          → (request.number == rpc.finalized_block_number) ≡ false
          → t ≤ v
          → Served (received (rpc.call_context v (rpc.string request.number) request.full_tx))

module _ (c : Clients) (s : Snapshot) (q : ℕ → Bool) (stable : IsStable c s)
    (distinct : DistinctHashes s) (d : Decides s q) (heads : HeadsFit c) (t : ℕ) where
  module _ (rpc : EthRpc) (request : Request) where
    call-Served :
        (u n a : ℕ)
        → (request.number == rpc.finalized_block_number) ≡ true
        → t ≤ u
        → c.block_number u ≡ value n
        → IsLatest q n a
        → Guarded
            (Steady s q t)
            (Served c q t rpc request)
            (call_by_number_steps c rpc (int64 a) request.full_tx)
    unfolding Guarded
    call-Served u n a same le head latest' w ((agrees, right), before) =
        let fits : ltb a (2 ^ 63) ≡ true = ground (arith, latest'.small) in
        rw (fits, call_by_number-received c rpc (pos a) request.full_tx w)
          (
            ((agrees, right), omega (arith, before)),
            Served.latest u n a w.instant same le head latest' before,
          )

    value-Served :
        (a : ℕ) (x : Result ℕ)
        → (request.number == rpc.finalized_block_number) ≡ true
        → Found c q t x
        → ok a ≡ map_err (wrap "failed to QueryFinalizedBlockInBabylon") x
        → Guarded
            (Steady s q t)
            (Served c q t rpc request)
            (call_by_number_steps c rpc (int64 a) request.full_tx)
    value-Served a x same (Found.no_head u m le e) eq = cc
    value-Served a x same (Found.latest u n b le e l) eq =
        let equal : a ≡ b = ground arith in rw equal (call-Served u n b same le e l)

    error-Served :
        (e : Error) (x : Result ℕ)
        → (request.number == rpc.finalized_block_number) ≡ true
        → Found c q t x
        → err e ≡ map_err (wrap "failed to QueryFinalizedBlockInBabylon") x
        → Served c q t rpc request (err e)
    error-Served e x same (Found.no_head u m le head) eq =
        let equal : e
            ≡ wrap "failed to QueryFinalizedBlockInBabylon"
                (wrap "failed to got blockNumber" (client m)) =
          ground (arith, eq) in
        subst (λ x. Served c q t rpc request (err x)) (sym equal) (Served.no_head u m same le head)
    error-Served e x same (Found.latest u n b le head l) eq = cc

    other-Served :
        (request.number == rpc.finalized_block_number) ≡ false
        → Guarded
            (Steady s q t)
            (Served c q t rpc request)
            (call_by_number_steps c rpc request.number request.full_tx)
    unfolding Guarded
    other-Served differ w ((agrees, right), before) =
        rw (call_by_number-received c rpc request.number request.full_tx w)
          (((agrees, right), omega (arith, before)), Served.passed_on w.instant differ before)

    request-Served :
        Guarded (Steady s q t) (Served c q t rpc request) (get_block_by_number_steps c rpc request)
    unfolding get_block_by_number_steps
    request-Served = elim (Bool-cases (request.number == rpc.finalized_block_number)) [
      | inl same ↦ rw same (
          Guarded-bind (Steady s q t)
            (λ y.
              (x : Result ℕ) × Found c q t x
              × (y ≡ map_err (wrap "failed to QueryFinalizedBlockInBabylon") x))
            (Served c q t rpc request) _ _
            (Guarded-wrapping (Steady s q t) (Found c q t) _ _ _
              (query-Found c s q stable distinct d heads t) (λ x found. (x, found, refl)))
            (λ a (x, found, eq). value-Served a x same found eq)
            (λ e (x, found, eq). error-Served e x same found eq))
      | inr differ ↦ rw differ (other-Served differ)
    ]

module _ (c : Clients) (rpc : EthRpc) (w : World) where
  -- The goroutines of a server, after the events.
  abbrev pub serving : List (Event Request) → System World Request rpc.Raw
  serving es = happens (get_block_by_number_steps c rpc) es (record { shared = w; goroutines = [] })

  -- A request comes in between the events, and gets the next goroutine.
  abbrev pub serving_between :
      List (Event Request) → Request → List (Event Request) → System World Request rpc.Raw
  serving_between before request after =
      happens (get_block_by_number_steps c rpc) after
        (happen (get_block_by_number_steps c rpc) (arrives request) (serving before))

-- On a stable chain with distinct block hashes, with every block below 2^63 decided, finality from
-- block 1 on and without gaps, each head that the node gives from 1 to below 2^63, caches that
-- agree, and a search that starts from a finalized block: whatever requests come in before and
-- after a request, and in whatever order the sections of their goroutines are run, once its
-- goroutine has been run 1293 times the request is answered. For the finalized block, at instants
-- not before it came in, the answer is an error of the node for the head, or what the node answers
-- to the number of a finalized block after which no block below that head is finalized; for
-- another number, it is what the node answers to that number.
pub get_block_by_number-answered :
    (c : Clients) (s : Snapshot) (q : ℕ → Bool) (rpc : EthRpc) (w : World)
    (before after : List (Event Request)) (request : Request)
    → IsStable c s
    → DistinctHashes s
    → Decides s q
    → HeadsFit c
    → Agrees s w.provider
    → IsRight q w.last_finalized_height
    → 1293 ≤ runs_of (length (serving c rpc w before).goroutines) after
    → (r : Result rpc.Raw) × Returned
        (serving_between c rpc w before request after)
        (length (serving c rpc w before).goroutines)
        request
        r
      × Served c q (serving c rpc w before).shared.instant rpc request r
get_block_by_number-answered c s q rpc w before after request stable distinct d heads h right
      often =
    let (r, at, served, kept) =
      happens-answered (Fit s q) instant_of (λ x t. Served c q t rpc x)
        (get_block_by_number_steps c rpc) 1293 (get_block_by_number-IsTimely c rpc)
        (λ x t. request-Served c s q stable distinct d heads t rpc x) w (h, right) before after
        request often in
    (r, at, served)
