-- ===== src/Startup/RpcCommand.antt =====
-- The command of finality-gadget/rpc/finality-gadget-rpc-services: `rpcService` (service.go).
use blitz.Base.{String, Bool, wrap, List, ℤ}
use blitz.Process.{Process, gets, modify, wrapping, deferring, part, ◌>>=◌, ◌>>◌}
use blitz.Clients.{Clients}
use blitz.Provider.{new_finalized_state_provider}
use blitz.Rpc.{EthRpc}
use blitz.Rpc.Serving.{HttpStack, ServerWorld, start_server}
use blitz.Startup.{World}
use blitz.Startup.Servers.{ProviderParts, JsonRpcServer}
use blitz.Startup.Apps.{new_fp_metrics}
use blitz.Startup.Commands.{
  Machine, in_process, configure, new_rpc_app, metrics_address, start_metrics, stop_metrics,
}

-- The provider that was built serves, with new caches.
abbrev pub installed : ServerWorld → ServerWorld
installed s = record s { gadget = record s.gadget { provider = new_finalized_state_provider } }

-- What the clients that were built answer, what go-ethereum answers, and the requests that come.
module _ (m : Machine) (clients : ProviderParts m.libraries → Clients)
    (eth : m.libraries.L2Client → EthRpc) (stack : HttpStack) (requests : List (ℤ × Bool)) where
  unfoldable pub serve :
      JsonRpcServer m.libraries → String → Process (World × ServerWorld) (Unit {0})
  serve server addr =
      part (λ s. s.1) (λ s t. (s.0, t))
        (start_server (clients server.finalized_state_provider) (eth server.eth_client) stack addr
          requests)

  -- Behind the start of the metrics server.
  unfoldable pub serve_rpc : Process (World × ServerWorld) (Unit {0})
  serve_rpc = do
    in_process new_fp_metrics
    rpc ← wrapping (wrap "new provider failed") (in_process (new_rpc_app m))
    addr ← gets (λ s. s.0.config.common.rpc_server_ip_port_address)
    modify (λ s. (s.0, installed s.1))
    serve rpc addr

  unfoldable pub rpc_service : Process (World × ServerWorld) (Unit {0})
  rpc_service = do
    in_process (configure m "./finality-gadget-rpc-services.yaml")
    prom_addr ← in_process (metrics_address m)
    modify (λ s. (start_metrics prom_addr s.0, s.1))
    deferring (λ s. (stop_metrics s.0, s.1)) serve_rpc
