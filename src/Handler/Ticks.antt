-- ===== src/Handler/Ticks.antt =====
-- Any number of ticks of the loop of `Start` (finality-gadget/operator/block_handler.go).
use blitz.Base.{
  ℕ, zero, suc, ◌+◌, ◌-◌, ◌^◌, ◌<◌, ◌≡◌, refl, String, List, ◌++◌, ok, err, Reply, Result, value,
  fails, received, map_err, leb, u64, arith, Bool-cases, inl, inr, wrap,
}
use blitz.Exec.{pure, gets, continue, ◌>>=◌}
use blitz.Exec.Leads.{Outcome, Outcome-weaken, recover-bind}
use blitz.Clients.{EthBlock, Clients}
use blitz.Handler.{HandlerWorld, call, fetch_after, fetch_blocks, ticks}
use blitz.Handler.Due.{due, IsExact, At, At-IsExact, Exact-later}
use blitz.Handler.Loop.{loops, IsExact-At}

module _ (interval first : ℕ) (before : List ℕ) (c : Clients)
    (on_block : ℕ → String → EthBlock → Reply (Unit {0})) where
  -- What the caller of `fetchBlocks` learns from a nil error.
  abbrev pub CaughtUp : ℕ → HandlerWorld → Type 0
  CaughtUp current w = w.handled ≡ before ++ due interval (first + 1) (current - (first + 1))

  fetches_after :
      (current : ℕ) (w : HandlerWorld)
      → current < 2 ^ 64
      → IsExact interval first before w
      → Outcome
          (λ _ u.
            IsExact interval first before u
            × (w.latest_block_number < current → CaughtUp current u))
          (IsExact interval first before)
          (fetch_after c on_block current w.latest_block_number w).0
          (fetch_after c on_block current w.latest_block_number w).1
  unfolding fetch_after pure
  fetches_after current w small h = elim (Bool-cases (leb current w.latest_block_number)) [
    | inl up_to_date ↦ rw up_to_date (h, λ lt. absurd (ground arith))
    | inr behind ↦
        let start : u64 (w.latest_block_number + 1) ≡ w.latest_block_number + 1 = ground arith in
        rw (behind, start)
          (Outcome-weaken (λ _. At interval first before current)
            (λ _ u.
              IsExact interval first before u
              × (w.latest_block_number < current → CaughtUp current u))
            (IsExact interval first before) _ _
            (λ _ u at. (At-IsExact interval first before u at, λ _. at.exact))
            ((loops interval first before c on_block (current - (w.latest_block_number + 1))
                (w.latest_block_number + 1) current (ground arith) small).to
              w (IsExact-At interval first before c on_block w h (ground arith))))
  ]

  fetches_answered :
      (r : Reply ℕ) (w : HandlerWorld)
      → ((n : ℕ) → r ≡ value n → n < 2 ^ 64)
      → IsExact interval first before w
      → Outcome
          (λ _. (IsExact interval first before))
          (IsExact interval first before)
          (continue
            (map_err (wrap "failed to get current block number") (received r))
            (λ current. gets (λ w. w.latest_block_number) >>= fetch_after c on_block current)
            w).0
          (continue
            (map_err (wrap "failed to get current block number") (received r))
            (λ current. gets (λ w. w.latest_block_number) >>= fetch_after c on_block current)
            w).1
  unfolding ◌>>=◌ gets
  fetches_answered (value current) w small h =
      Outcome-weaken
        (λ _ u.
          IsExact interval first before u × (w.latest_block_number < current → CaughtUp current u))
        (λ _. (IsExact interval first before)) (IsExact interval first before) _ _
        (λ _ u both. both.0) (fetches_after current w (small current refl) h)
  fetches_answered (fails m) w small h = h

  -- One call of `fetchBlocks`, whatever it returns.
  fetch_blocks-IsExact :
      (w : HandlerWorld)
      → ((t n : ℕ) → c.block_number t ≡ value n → n < 2 ^ 64)
      → IsExact interval first before w
      → IsExact interval first before (fetch_blocks c on_block w).1
  unfolding fetch_blocks ◌>>=◌ call
  fetch_blocks-IsExact w small h = either _ _ (
      fetches_answered (c.block_number w.instant) (record w { instant = w.instant + 1 })
        (small w.instant) (Exact-later interval first before w h))
    where
      either :
          (r : Result Unit) (u : HandlerWorld)
          → Outcome (λ _. (IsExact interval first before)) (IsExact interval first before) r u
          → IsExact interval first before u
      either (ok a) u e = e
      either (err x) u e = e

  -- If the heads that the L2 node answers are below 2^64, then over any number of ticks, whatever
  -- the node and the processers answer, `handleBlock` is called exactly once, and in order, for
  -- every number that is due after the first one and up to the latest one processed.
  pub ticks-IsExact :
      (n : ℕ) (w : HandlerWorld)
      → ((t n : ℕ) → c.block_number t ≡ value n → n < 2 ^ 64)
      → IsExact interval first before w
      → IsExact interval first before (ticks c on_block n w).1
  unfolding ticks pure
  ticks-IsExact zero w small h = h
  ticks-IsExact (suc n) w small h =
      rw (recover-bind (fetch_blocks c on_block) (ticks c on_block n) w)
        (ticks-IsExact n (fetch_blocks c on_block w).1 small (fetch_blocks-IsExact w small h))

  -- If the head is beyond the latest number and `fetchBlocks` returns no error, then every number
  -- that is due below the head has been handed on.
  pub fetch_blocks-CaughtUp :
      (w : HandlerWorld) (current : ℕ)
      → c.block_number w.instant ≡ value current
      → current < 2 ^ 64
      → IsExact interval first before w
      → w.latest_block_number < current
      → (fetch_blocks c on_block w).0 ≡ ok tt
      → CaughtUp current (fetch_blocks c on_block w).1
  unfolding fetch_blocks ◌>>=◌ call gets
  fetch_blocks-CaughtUp w current answer small h behind = rw answer (λ done. caught _ _ done (
      fetches_after current (record w { instant = w.instant + 1 }) small
        (Exact-later interval first before w h)))
    where
      caught :
          (r : Result Unit) (u : HandlerWorld)
          → r ≡ ok tt
          → Outcome
              (λ _ u.
                IsExact interval first before u
                × (w.latest_block_number < current → CaughtUp current u))
              (IsExact interval first before)
              r
              u
          → CaughtUp current u
      caught (ok a) u e both = both.1 behind
      caught (err x) u e both = cc
