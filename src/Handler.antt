-- ===== src/Handler.antt =====
-- `L2BlockHandler` (finality-gadget/operator/block_handler.go): it polls the head of L2 and hands
-- every block that is due to the processers.
pub mod Deliveries
pub mod Due
pub mod Loop
pub mod Ticks
pub mod Complete
pub mod Service
use blitz.Base.{
  ℕ, zero, suc, ◌+◌, ◌-◌, ◌*◌, ◌%◌, String, Bool, true, false, ◌&&◌, Option, List, [], ◌∷◌, ◌++◌,
  map, Error, wrap, wrapf, Reply, received, map_err, ltb, leb, ◌==◌, nat_eq, string_eq, integer_eq,
  u64, int64, ℤ, pos, if◌then◌else◌,
}
use mathlib.Core.Bool.{not}
use blitz.Base.GoMap.{GoMap, insert}
use blitz.Exec.{Exec, pure, gets, modify, wrapping, recover, ◌>>=◌, ◌>>◌}
use blitz.Clients.{EthBlock, Clients}

-- An `IL2BlockProcesser` is external, and is known here by its own name. The intervals of time
-- count nanoseconds; that of the fetches, a `time.Duration`, has a sign.
pub record L2BlockHandler : Type 0 where
  pub latest_block_number : ℕ
  pub latest_block_hash : String
  pub block_interval : ℕ
  pub fetch_block_interval : ℤ
  pub processers : GoMap String String

-- The handler, the instant of the next external call, the numbers that `handleBlock` was called
-- for, and the calls of `OnBlock`: the processer and the block.
pub record HandlerWorld : Type 0 where
  pub handler : L2BlockHandler
  pub open handler use *
  pub instant : ℕ
  pub handled : List ℕ
  pub seen : List (String × EthBlock)

abbrev pub new_l2_block_handler : L2BlockHandler
new_l2_block_handler = record {
  latest_block_number = 0;
  latest_block_hash = "";
  block_interval = 0;
  fetch_block_interval = pos 0;
  processers = [];
}

unfoldable pub add_processer : String → String → L2BlockHandler → L2BlockHandler
add_processer name processer h = record h { processers = insert name processer h.processers }

abbrev pub set_processed_block : ℕ → String → L2BlockHandler → L2BlockHandler
set_processed_block number hash h = record h {
  latest_block_number = number;
  latest_block_hash = hash;
}

unfoldable pub with_latest_block : ℕ → String → L2BlockHandler → L2BlockHandler
with_latest_block number hash h = set_processed_block number hash h

-- `h.blockInterval > 1` and `i%h.blockInterval != 0`
abbrev pub is_skipped : ℕ → ℕ → Bool
is_skipped interval i = ltb 1 interval && not (i % interval == 0)

abbrev pub second : ℕ
second = 1_000_000_000

-- An external call, as `ask` of the provider.
unfoldable pub call : {A : Type 0} → (Error → Error) → (ℕ → Reply A) → Exec HandlerWorld A
call wrapper request w =
    (map_err wrapper (received (request w.instant)), record w { instant = w.instant + 1 })

module _ (c : Clients) (on_block : ℕ → String → EthBlock → Reply (Unit {0})) where
  -- The default of the interval; the error of the query of the head is only logged.
  unfoldable pub initialize : Exec HandlerWorld (Unit {0})
  initialize = do
    modify (λ w. record w {
      handler = record w.handler {
        fetch_block_interval =
            if w.fetch_block_interval == pos 0 then pos (1 * second) else w.fetch_block_interval;
      };
    })
    _ ← recover (call (λ e. e) c.block_number)
    pure tt

  -- One round of the loop over the processers: an error of `OnBlock` is only logged.
  unfoldable pub process : EthBlock → String → Exec HandlerWorld (Unit {0})
  process blk processer = do
    modify (λ w. record w { seen = w.seen ++ (processer, blk) ∷ [] })
    _ ← recover (call (λ e. e) (λ t. on_block t processer blk))
    pure tt

  unfoldable pub process_all : EthBlock → GoMap String String → Exec HandlerWorld (Unit {0})
  process_all blk [] = pure tt
  process_all blk ((name, processer) ∷ rest) = process blk processer >> process_all blk rest

  unfoldable pub handle_block : ℕ → EthBlock → Exec HandlerWorld (Unit {0})
  handle_block number blk = do
    modify (λ w. record w { handled = w.handled ++ number ∷ [] })
    processers ← gets (λ w. w.processers)
    process_all blk processers

  unfoldable pub fetch_block : ℕ → Exec HandlerWorld (Unit {0})
  fetch_block number = do
    blk ←
        call (wrapf "failed to get l2 block by number %d" number)
          (λ t. c.block_by_number t (int64 number))
    wrapping (wrapf "handle block %d failed" number) (handle_block number blk)
    modify (λ w. record w { handler = set_processed_block number blk.hash w.handler })

  -- One round of the loop of `fetchBlocks`.
  unfoldable pub fetch_due : ℕ → ℕ → Exec HandlerWorld (Unit {0})
  fetch_due interval i =
      if is_skipped interval i
      then pure tt
      else wrapping (wrapf "failed to fetch block %d" i) (fetch_block i)

  -- `for i := start; i < currentBlockNumber; i++`, by the rounds left.
  unfoldable pub fetch_loop : ℕ → ℕ → Exec HandlerWorld (Unit {0})
  fetch_loop zero i = pure tt
  fetch_loop (suc rounds) i = do
    interval ← gets (λ w. w.block_interval)
    fetch_due interval i
    fetch_loop rounds (u64 (i + 1))

  unfoldable pub fetch_after : ℕ → ℕ → Exec HandlerWorld (Unit {0})
  fetch_after current latest =
      let start = u64 (latest + 1) in
      if leb current latest then pure tt else fetch_loop (current - start) start

  unfoldable pub fetch_blocks : Exec HandlerWorld (Unit {0})
  fetch_blocks = do
    current ← call (wrap "failed to get current block number") c.block_number
    latest ← gets (λ w. w.latest_block_number)
    fetch_after current latest

  -- Some ticks of the loop of `Start`: an error is logged, and the next tick tries again.
  unfoldable pub ticks : ℕ → Exec HandlerWorld (Unit {0})
  ticks zero = pure tt
  ticks (suc n) = do _ ← recover fetch_blocks; ticks n
