-- ===== src/Rpc/Serving.antt =====
-- `JsonRpcServer.StartServer` (finality-gadget/rpc/rpc.go): the HTTP server, from its start to its
-- shutdown.
pub mod Endings
use blitz.Base.{ℕ, ◌+◌, ◌-◌, String, Bool, List, [], ◌∷◌, Error, wrap, Reply, received, ℤ, u64}
use blitz.Process.{Process, pure, modify, outcome, of_result, or_exit, deferring, ◌>>=◌, ◌>>◌}
use blitz.Clients.{Clients}
use blitz.Provider.{World}
use blitz.Rpc.{EthRpc, init, get_block_by_number}

-- What go-ethereum answers to the registration of the API, and to the start of the endpoint.
pub record HttpStack : Type 0 where
  pub register_apis : Reply (Unit {0})
  pub start_http_endpoint : String → Reply String

-- The provider behind the handler, the open endpoints, the counter of `wg`, and the `id` of
-- `loggerHandler`.
pub record ServerWorld : Type 0 where
  pub gadget : World
  pub endpoints : ℕ
  pub wg : ℕ
  pub id : ℕ

-- `httpServer.Shutdown(…)`, whose error is only logged
abbrev pub shut_down : ServerWorld → ServerWorld
shut_down s = record s { endpoints = s.endpoints - 1 }

abbrev pub opened : ServerWorld → ServerWorld
opened s = record s { endpoints = s.endpoints + 1 }

-- `s.wg.Add(1)`, and the deferred `s.wg.Done()`
abbrev pub joined : ServerWorld → ServerWorld
joined s = record s { wg = s.wg + 1 }

abbrev pub left : ServerWorld → ServerWorld
left s = record s { wg = s.wg - 1 }

module _ (c : Clients) (rpc : EthRpc) where
  -- The error of `init` is only logged.
  unfoldable pub init_handler : Process ServerWorld (Unit {0})
  unfolding modify
  init_handler = modify (λ s. record s { gadget = (init c rpc s.gadget).1 })

  -- One request: what the handler returns, an error too, goes to its client.
  unfoldable pub serve_http : ℤ → Bool → Process ServerWorld (Unit {0})
  unfolding modify
  serve_http number full_tx = modify (λ s. record s {
    id = u64 (s.id + 1);
    gadget = (get_block_by_number c rpc number full_tx s.gadget).1;
  })

  -- The requests that come before the context is done.
  unfoldable pub serve_all : List (ℤ × Bool) → Process ServerWorld (Unit {0})
  serve_all [] = pure tt
  serve_all (request ∷ more) = do serve_http request.0 request.1; serve_all more

  unfoldable pub start_server :
      HttpStack → String → List (ℤ × Bool) → Process ServerWorld (Unit {0})
  start_server stack server_ip_port_addr requests = do
    init_handler
    or_exit (wrap "Could not register API") (outcome (of_result (received stack.register_apis)))
    addr ←
        or_exit (wrap "Could not start RPC api")
          (outcome (of_result (received (stack.start_http_endpoint server_ip_port_addr))))
    modify opened
    modify joined
    deferring left (do serve_all requests; modify shut_down)
