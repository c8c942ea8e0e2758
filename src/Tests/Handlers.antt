-- ===== src/Tests/Handlers.antt =====
-- The block handler of finality-gadget/operator on the small world, with two processers, of which
-- one always fails. Every second block is due.
use blitz.Base.{
  ltb, true, ℕ, pos, ◌<◌, ◌^◌, ◌≡◌, refl, String, [], ◌∷◌, ok, Reply, value, fails, ◌==◌, string_eq,
  if◌then◌else◌, arith,
}
use blitz.Base.GoMap.{insert}
use blitz.Exec.{runs}
use blitz.Clients.{EthBlock}
use blitz.Handler.{
  HandlerWorld, new_l2_block_handler, add_processer, with_latest_block, call, initialize, process,
  process_all, handle_block, fetch_block, fetch_due, fetch_loop, fetch_after, fetch_blocks, ticks,
}
use blitz.Handler.Deliveries.{delivered, handle_block_lem}
use blitz.Handler.Due.{IsExact}
use blitz.Process.{returned}
use blitz.Handler.Service.{HandlerService, start_handler, start_handler-IsExact}
use blitz.Handler.Ticks.{CaughtUp, ticks-IsExact}
use blitz.Handler.Complete.{HasBlocks, fetch_blocks-completes}
use blitz.Tests.Chain.{name, block, clients}

program : Unit {0}
unfolding runs insert add_processer with_latest_block call initialize process process_all
    handle_block fetch_block fetch_due fetch_loop fetch_after fetch_blocks ticks name
program = tt

abbrev on_block : ℕ → String → EthBlock → Reply (Unit {0})
on_block t processer blk = if processer == "bad" then fails "refused" else value tt

abbrev start : HandlerWorld
start = record {
  handler = record new_l2_block_handler {
    block_interval = 2;
    processers = ("a", "good") ∷ ("b", "bad") ∷ [];
  };
  instant = 0;
  handled = [];
  seen = [];
}

start-IsExact : IsExact 2 0 [] start
start-IsExact = record { setting = refl; started = omega arith; small = omega arith; exact = refl }

blocks_2_and_4 : (fetch_blocks clients on_block start).1.handled ≡ 2 ∷ 4 ∷ []
unfolding program
blocks_2_and_4 = refl

handler_is_built :
    (with_latest_block 7 "0xaa" (add_processer "a" "good" new_l2_block_handler)).processers
    ≡ ("a", "good") ∷ []
unfolding program
handler_is_built = refl

default_interval : (initialize clients on_block start).1.fetch_block_interval ≡ pos 1_000_000_000
unfolding program
default_interval = refl

heads : (t n : ℕ) → clients.block_number t ≡ value n → n < 2 ^ 64
heads t n e = ground arith

blocks : HasBlocks clients on_block 5
blocks t i le = let small : ltb i (2 ^ 63) ≡ true = ground arith in (block i, rw small refl)

three_ticks : IsExact 2 0 [] (ticks clients on_block 3 start).1
three_ticks = ticks-IsExact 2 0 [] clients on_block 3 start heads start-IsExact

fetch_blocks-completes_example :
    ((fetch_blocks clients on_block start).0 ≡ ok tt)
    × CaughtUp 2 0 [] clients on_block 5 (fetch_blocks clients on_block start).1
fetch_blocks-completes_example =
    fetch_blocks-completes clients on_block 5 blocks 2 0 [] start refl (omega arith) start-IsExact
      (omega arith)

handled_2 :
    handle_block clients on_block 2 (block 2) start
    ≡ (ok tt, record (delivered (block 2) start.processers start) { handled = 2 ∷ [] })
handled_2 = handle_block_lem clients on_block 2 (block 2) start

abbrev service : HandlerService
service = record { world = start; wg = 0 }

start_handler-IsExact_example :
    ((start_handler clients on_block 3 service).0 ≡ returned tt)
    × IsExact 2 0 [] (start_handler clients on_block 3 service).1.world
    × ((start_handler clients on_block 3 service).1.wg ≡ 0)
start_handler-IsExact_example =
    start_handler-IsExact clients on_block 2 0 [] 3 service heads start-IsExact
