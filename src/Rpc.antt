-- ===== src/Rpc.antt =====
-- `JsonRpcHandler` (finality-gadget/rpc/rpc.go): the `eth_getBlockByNumber` of the gadget.
pub mod Answers
pub mod Sessions
pub mod Serving
use blitz.Base.{ℕ, Bool, Reply, wrap, ℤ, int64, if◌then◌else◌, integer_eq, ◌==◌}
use blitz.Exec.{Exec, pure, wrapping, ◌>>=◌}
use blitz.Clients.{Clients}
use blitz.Provider.{World, ask}
use blitz.Finality.{query_finalized_block_in_babylon}
use Prim.Native.String.{String}

-- What the L2 node and `BlockNumber` of go-ethereum give: the number that stands for "finalized",
-- how a number is written, and the raw answer to `eth_getBlockByNumber` at an instant.
pub record EthRpc : Type 1 where
  pub Raw : Type 0
  pub finalized_block_number : ℤ
  pub string : ℤ → String
  pub call_context : ℕ → String → Bool → Reply Raw

module _ (c : Clients) (rpc : EthRpc) where
  -- The query at the start, whose only effect is on the caches.
  unfoldable pub init : Exec World (Unit {0})
  init = do
    _ ←
        wrapping (wrap "failed to QueryFinalizedBlockInBabylon")
          (query_finalized_block_in_babylon c)
    pure tt

  -- `CallContext(ctx, &raw, "eth_getBlockByNumber", number.String(), fullTx)`
  unfoldable pub call_by_number : ℤ → Bool → Exec World rpc.Raw
  call_by_number number full_tx = ask (λ e. e) (λ t. rpc.call_context t (rpc.string number) full_tx)

  unfoldable pub get_block_by_number : ℤ → Bool → Exec World rpc.Raw
  get_block_by_number number full_tx =
      if number == rpc.finalized_block_number
      then (do
        finalized ←
            wrapping (wrap "failed to QueryFinalizedBlockInBabylon")
              (query_finalized_block_in_babylon c)
        call_by_number (int64 finalized) full_tx)
      else call_by_number number full_tx
