-- ===== src/Concurrent/Requests.antt =====
-- The requests `eth_getBlockByNumber` (finality-gadget/rpc/rpc.go), each served by a goroutine.
use blitz.Base.{Bool, ℤ, int64, wrap, ◌==◌, integer_eq, if◌then◌else◌}
use blitz.Clients.{Clients}
use blitz.Provider.{World}
use blitz.Rpc.{EthRpc, call_by_number}
use blitz.Threads.{Steps, locked, wrapping, ◌>>=◌}
use blitz.Concurrent.Search.{query_finalized_block_steps}

-- `GetBlockByNumber(ctx, number, fullTx)`
pub record Request : Type 0 where
  pub number : ℤ
  pub full_tx : Bool

module _ (c : Clients) (rpc : EthRpc) where
  -- The call of the L2 node, under no lock.
  abbrev pub call_by_number_steps : ℤ → Bool → Steps World rpc.Raw
  call_by_number_steps number full_tx = locked (call_by_number c rpc number full_tx)

  unfoldable pub get_block_by_number_steps : Request → Steps World rpc.Raw
  get_block_by_number_steps request =
      if request.number == rpc.finalized_block_number
      then (do
        finalized ←
            wrapping (wrap "failed to QueryFinalizedBlockInBabylon") (query_finalized_block_steps c)
        call_by_number_steps (int64 finalized) request.full_tx)
      else call_by_number_steps request.number request.full_tx
