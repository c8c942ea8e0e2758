-- ===== src/Handler/Deliveries.antt =====
-- What `handleBlock` of finality-gadget/operator/block_handler.go does with the processers.
use mathlib.Core.List.{append-nil, append_assoc}
use blitz.Base.{ℕ, ◌+◌, ◌≡◌, ◌∙◌, ap, String, List, [], ◌∷◌, ◌++◌, ok, Reply, arith, length}
use blitz.Base.GoMap.{GoMap}
use blitz.Exec.{pure, modify, gets, recover, ◌>>=◌}
use blitz.Clients.{EthBlock, Clients}
use blitz.Handler.{HandlerWorld, call, process, process_all, handle_block}

abbrev pub deliveries : EthBlock → GoMap String String → List (String × EthBlock)
deliveries blk [] = []
deliveries blk ((name, processer) ∷ rest) = (processer, blk) ∷ deliveries blk rest

abbrev pub delivered : EthBlock → GoMap String String → HandlerWorld → HandlerWorld
delivered blk processers w = record w {
  instant = w.instant + length processers;
  seen = w.seen ++ deliveries blk processers;
}

module _ (c : Clients) (on_block : ℕ → String → EthBlock → Reply (Unit {0})) where
  process_lem :
      (blk : EthBlock) (name processer : String) (w : HandlerWorld)
      → process c on_block blk processer w ≡ (ok tt, delivered blk ((name, processer) ∷ []) w)
  unfolding process ◌>>=◌ modify recover call pure
  process_lem blk name processer w = ground arith

  process_all_lem :
      (blk : EthBlock) (processers : GoMap String String) (w : HandlerWorld)
      → process_all c on_block blk processers w ≡ (ok tt, delivered blk processers w)
  unfolding process_all ◌>>=◌ pure
  process_all_lem blk [] w = ground (arith, append-nil w.seen)
  process_all_lem blk ((name, processer) ∷ rest) w = rw (process_lem blk name processer w) (
      process_all_lem blk rest (delivered blk ((name, processer) ∷ []) w)
      ∙ ap (λ u. (ok tt, u))
          (ground (arith, append_assoc w.seen ((processer, blk) ∷ []) (deliveries blk rest))))

  -- `handleBlock` gives the block once to every processer, goes on after an error of one, returns
  -- no error, and leaves the handler as it is.
  pub handle_block_lem :
      (number : ℕ) (blk : EthBlock) (w : HandlerWorld)
      → handle_block c on_block number blk w
        ≡ (ok tt, record (delivered blk w.processers w) { handled = w.handled ++ number ∷ [] })
  unfolding handle_block ◌>>=◌ modify gets
  handle_block_lem number blk w =
      process_all_lem blk w.processers (record w { handled = w.handled ++ number ∷ [] })
