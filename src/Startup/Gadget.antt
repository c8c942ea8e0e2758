-- ===== src/Startup/Gadget.antt =====
-- What the caches of the gadget hold when the command `rpcService` has ended.
use blitz.Base.{ℕ, ◌≡◌, String, Bool, List, [], ◌∷◌, ℤ}
use blitz.Process.{Process, part, raise, pure}
use blitz.Process.Keeps.{
  Keeps, Keeps-pure, Keeps-gets, Keeps-result, Keeps-wrapping, Keeps-modify, Keeps-bind,
  Keeps-bracket, Keeps-part, Keeps-or_exit,
}
use blitz.Clients.{Clients}
use blitz.Finality.{query_finalized_block_in_babylon_by_number}
use blitz.Finality.Reference.{Snapshot, IsStable, DistinctHashes, reference}
use blitz.Finality.Agreement.{Agrees}
use blitz.Finality.Soundness.{by_number-reference, new_finalized_state_provider-Agrees}
use blitz.Rpc.{EthRpc}
use blitz.Rpc.Sessions.{idle, started, requested, Serves-Agrees}
use blitz.Rpc.Serving.{
  HttpStack, ServerWorld, init_handler, serve_http, serve_all, start_server, joined, left,
}
use blitz.Startup.{World}
use blitz.Startup.Servers.{ProviderParts, JsonRpcServer}
use blitz.Startup.Commands.{Machine, in_process}
use blitz.Cli.{Cli, Route, calls, refuses, prints, run_route}
use blitz.Startup.Mains.{SingleAction, rpc_app, rpc_main}
use blitz.Startup.RpcCommand.{serve, serve_rpc, rpc_service}

module _ (s : Snapshot) (distinct : DistinctHashes s) where
  abbrev AgreesInside : ServerWorld → Type 0
  AgreesInside t = Agrees s t.gadget.provider

  module _ (c : Clients) (rpc : EthRpc) (stable : IsStable c s) where
    serve_all-Keeps :
        (requests : List (ℤ × Bool)) → Keeps (Unit {0}) AgreesInside (serve_all c rpc requests)
    unfolding serve_all serve_http
    serve_all-Keeps [] = Keeps-pure _ _ _
    serve_all-Keeps (request ∷ more) =
        Keeps-bind _ _ _ _
          (Keeps-modify _ _ _ (λ t h.
            Serves-Agrees c rpc s t.gadget _ stable distinct
              (requested t.gadget request.0 request.1 idle) h))
          (λ u. serve_all-Keeps more)

    start_server-Keeps :
        (stack : HttpStack) (addr : String) (requests : List (ℤ × Bool))
        → Keeps (Unit {0}) AgreesInside (start_server c rpc stack addr requests)
    unfolding start_server init_handler
    start_server-Keeps stack addr requests =
        Keeps-bind _ _ _ _
          (Keeps-modify _ _ _
            (λ t h. Serves-Agrees c rpc s t.gadget _ stable distinct (started t.gadget idle) h))
          (λ u. Keeps-bind _ _ _ _ (Keeps-or_exit _ _ _ (Keeps-result _ _ _)) (λ v.
            Keeps-bind _ _ _ _ (Keeps-or_exit _ _ _ (Keeps-result _ _ _)) (λ bound.
              Keeps-bind _ _ _ _ (Keeps-modify _ _ _ (λ t h. h)) (λ o.
                Keeps-bracket (Unit {0}) AgreesInside AgreesInside joined left _
                  (Keeps-bind _ _ _ _ (serve_all-Keeps requests)
                    (λ d. Keeps-modify _ _ _ (λ t h. h)))
                  (λ t h. h) (λ x t h. h) (λ t h. h)))))

  abbrev AgreesBeside : World × ServerWorld → Type 0
  AgreesBeside p = AgreesInside p.1

  quiet : {A : Type 0} (p : Process World A) → Keeps (Unit {0}) AgreesBeside (in_process p)
  unfolding part
  quiet p = record { kept = λ t h. h; exits = λ t e q. tt }

  module _ (m : Machine) (clients : ProviderParts m.libraries → Clients)
      (eth : m.libraries.L2Client → EthRpc) (stack : HttpStack) (requests : List (ℤ × Bool))
      (stable : (p : ProviderParts m.libraries) → IsStable (clients p) s) where
    serve-Keeps :
        (server : JsonRpcServer m.libraries) (addr : String)
        → Keeps (Unit {0}) AgreesBeside (serve m clients eth stack requests server addr)
    unfolding serve
    serve-Keeps server addr =
        Keeps-part _ _ _ _ AgreesInside _
          (start_server-Keeps (clients server.finalized_state_provider) (eth server.eth_client)
            (stable server.finalized_state_provider) stack addr requests)
          (λ p h. h) (λ p t h q. q)

    rpc_service-Keeps : Keeps (Unit {0}) AgreesBeside (rpc_service m clients eth stack requests)
    unfolding rpc_service serve_rpc
    rpc_service-Keeps = Keeps-bind _ _ _ _ (quiet _) (λ u. Keeps-bind _ _ _ _ (quiet _) (λ addr.
        Keeps-bracket (Unit {0}) AgreesBeside AgreesBeside _ _ _
          (Keeps-bind _ _ _ _ (quiet _) (λ v.
            Keeps-bind _ _ _ _ (Keeps-wrapping _ _ _ _ (quiet _)) (λ rpc.
              Keeps-bind _ _ _ _ (Keeps-gets _ _ _) (λ at.
                Keeps-bind _ _ _ _
                  (Keeps-modify _ _ _ (λ p h. new_finalized_state_provider-Agrees s))
                  (λ x. serve-Keeps rpc at)))))
          (λ p h. h) (λ x p h. h) (λ p h. h)))

    route-Keeps :
        (r : Route SingleAction)
        → Keeps
            (Unit {0})
            AgreesBeside
            (run_route (λ action words. rpc_service m clients eth stack requests) r)
    unfolding run_route raise pure
    route-Keeps (calls action words) = rpc_service-Keeps
    route-Keeps (refuses message) = record { kept = λ p h. h; exits = λ p x q. tt }
    route-Keeps prints = record { kept = λ p h. h; exits = λ p x q. tt }

    rpc_main-Keeps :
        (cli : Cli) (args : List String)
        → Keeps (Unit {0}) AgreesBeside (rpc_main cli m clients eth stack requests args)
    unfolding rpc_main
    rpc_main-Keeps cli args =
        Keeps-or_exit _ _ _ (route-Keeps (cli.route SingleAction rpc_app args))

-- The command `rpcService` keeps its caches in agreement with a stable chain.
pub rpc_service-reference :
    (s : Snapshot) (m : Machine) (clients : ProviderParts m.libraries → Clients)
    (eth : m.libraries.L2Client → EthRpc) (stack : HttpStack) (requests : List (ℤ × Bool))
    (w : World) (t : ServerWorld) (p : ProviderParts m.libraries) (n : ℕ)
    → DistinctHashes s
    → ((p : ProviderParts m.libraries) → IsStable (clients p) s)
    → Agrees s t.gadget.provider
    → Agrees s (rpc_service m clients eth stack requests (w, t)).1.1.gadget.provider
      × ((query_finalized_block_in_babylon_by_number
            (clients p)
            n
            (rpc_service m clients eth stack requests (w, t)).1.1.gadget).0
          ≡ reference s n)
rpc_service-reference s m clients eth stack requests w t p n distinct stable h =
    let agrees = (rpc_service-Keeps s distinct m clients eth stack requests stable).kept (w, t) h in
    (agrees, (by_number-reference (clients p) s _ n (stable p) distinct agrees).0)

-- Where the clients that are built answer for one stable chain with distinct block hashes, and the
-- caches agree with it at first: with whatever words the RPC services are started, however
-- urfave/cli routes them, whatever is asked, and however the program ends, its caches agree with
-- the chain, and the cached query of a block then returns what the decision without caches says.
pub rpc_main-reference :
    (s : Snapshot) (cli : Cli) (m : Machine) (clients : ProviderParts m.libraries → Clients)
    (eth : m.libraries.L2Client → EthRpc) (stack : HttpStack) (requests : List (ℤ × Bool))
    (args : List String) (w : World) (t : ServerWorld) (p : ProviderParts m.libraries) (n : ℕ)
    → DistinctHashes s
    → ((p : ProviderParts m.libraries) → IsStable (clients p) s)
    → Agrees s t.gadget.provider
    → Agrees s (rpc_main cli m clients eth stack requests args (w, t)).1.1.gadget.provider
      × ((query_finalized_block_in_babylon_by_number
            (clients p)
            n
            (rpc_main cli m clients eth stack requests args (w, t)).1.1.gadget).0
          ≡ reference s n)
rpc_main-reference s cli m clients eth stack requests args w t p n distinct stable h =
    let agrees =
      (rpc_main-Keeps s distinct m clients eth stack requests stable cli args).kept (w, t) h in
    (agrees, (by_number-reference (clients p) s _ n (stable p) distinct agrees).0)
