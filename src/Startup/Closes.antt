-- ===== src/Startup/Closes.antt =====
-- What the commands leave unclosed when they end.
use blitz.Base.{◌⊎◌, inl, inr, Bool, List, ℤ, ℕ, ◌-◌, ◌≡◌, refl, String, Error, arith}
use mathlib.Core.Path.{subst}
use blitz.Process.{Process, Outcome, exited}
use blitz.Process.Keeps.{
  Keeps, Keeps-gets, Keeps-wrapping, Keeps-modify, Keeps-bind, Keeps-part, Keeps-weaken,
}
use blitz.App.{AppEnv, AppWorld}
use blitz.Startup.{World}
use blitz.Startup.Apps.{FinalityProviderApp}
use blitz.Startup.Commands.{in_process, Machine}
use blitz.Clients.{Clients}
use blitz.Rpc.{EthRpc}
use blitz.Rpc.Serving.{HttpStack, ServerWorld}
use blitz.Startup.Servers.{ProviderParts}
use blitz.Startup.RpcCommand.{serve, serve_rpc, rpc_service}
use blitz.Process.Settles.{Settles, Settles-bind, Settles-bracket}
use blitz.Startup.OperatorCommands.{start_app, provide, finality_provider}
use blitz.Startup.Cleanup.{Counts, new_fp_metrics-Clean}
use blitz.Startup.Pieces.{configure-Keeps, metrics_address-Clean, new_app-Clean, new_rpc_app-Clean}

-- Inside, a metrics server more listens.
abbrev Within : (ℕ → ℕ → Type 0) → ℕ → ℕ → Type 0
Within R dbs servers = R dbs (servers - 1)

-- The same for the process beside another state.
abbrev Beside : {S : Type 0} → (World → Type 0) → World × S → Type 0
Beside P s = P s.0

in_process-Keeps :
    {S A : Type 0} (X : Type 0) (P : World → Type 0) (p : Process World A)
    → Keeps X P p
    → Keeps X (Beside {S = S} P) (in_process {S = S} p)
in_process-Keeps X P p h = Keeps-part X (Beside P) _ _ P p h (λ s q. q) (λ s t q r. r)

module _ (R : ℕ → ℕ → Type 0) (m : Machine) (service : AppEnv) where
  start_app-Keeps :
      (app : FinalityProviderApp m.libraries) (btc_pk : String)
      → Keeps (Unit {0}) (Beside (Counts R)) (start_app m service app btc_pk)
  unfolding start_app
  start_app-Keeps app btc_pk = Keeps-wrapping _ _ _ _ (
      Keeps-part _ _ _ _ (λ t. Unit {0}) _ (record { kept = λ t h. tt; exits = λ t e q. tt })
        (λ s h. tt) (λ s t h q. h))

  provide-Keeps : Keeps (Unit {0}) (Beside (Counts R)) (provide m service)
  unfolding provide
  provide-Keeps =
      Keeps-bind _ _ _ _
        (Keeps-wrapping _ _ _ _ (in_process-Keeps _ _ _ (Keeps-weaken _ _ _ (new_app-Clean R m))))
        (λ app. Keeps-bind _ _ _ _ (Keeps-gets _ _ _) (λ pk. start_app-Keeps app pk))

module _ (R : ℕ → ℕ → Type 0) (m : Machine) (service : AppEnv) where
  finality_provider-Settles : Settles (Beside (Counts R)) (finality_provider m service)
  unfolding finality_provider
  finality_provider-Settles =
      Settles-bind _ _ _ _ (in_process-Keeps _ _ _ (configure-Keeps R m _)) (λ u.
        Settles-bind _ (Unit {0}) _ _
          (in_process-Keeps _ _ _ (Keeps-weaken _ _ _ (metrics_address-Clean R m)))
          (λ addr.
            Settles-bracket (Unit {0}) (Beside (Counts R)) (Beside (Counts (Within R))) _ _ _
              (provide-Keeps (Within R) m service) (λ s h. subst (R s.0.open_dbs) (omega arith) h)
              (λ s h. h)))

module _ (R : ℕ → ℕ → Type 0) (m : Machine) (clients : ProviderParts m.libraries → Clients)
    (eth : m.libraries.L2Client → EthRpc) (stack : HttpStack) (requests : List (ℤ × Bool)) where
  serve_rpc-Keeps : Keeps (Unit {0}) (Beside (Counts R)) (serve_rpc m clients eth stack requests)
  unfolding serve_rpc serve
  serve_rpc-Keeps =
      Keeps-bind _ _ _ _ (in_process-Keeps _ _ _ (Keeps-weaken _ _ _ (new_fp_metrics-Clean R)))
        (λ u.
          Keeps-bind _ _ _ _
            (Keeps-wrapping _ _ _ _
              (in_process-Keeps _ _ _ (Keeps-weaken _ _ _ (new_rpc_app-Clean R m))))
            (λ rpc. Keeps-bind _ _ _ _ (Keeps-gets _ _ _) (λ addr.
              Keeps-bind _ _ _ _ (Keeps-modify _ _ _ (λ s h. h)) (λ v.
                Keeps-part _ _ _ _ (λ t. Unit {0}) _
                  (record { kept = λ t h. tt; exits = λ t e q. tt }) (λ s h. tt) (λ s t h q. h)))))

module _ (R : ℕ → ℕ → Type 0) (m : Machine) (clients : ProviderParts m.libraries → Clients)
    (eth : m.libraries.L2Client → EthRpc) (stack : HttpStack) (requests : List (ℤ × Bool)) where
  rpc_service-Settles : Settles (Beside (Counts R)) (rpc_service m clients eth stack requests)
  unfolding rpc_service
  rpc_service-Settles = Settles-bind _ _ _ _ (in_process-Keeps _ _ _ (configure-Keeps R m _)) (λ u.
      Settles-bind _ (Unit {0}) _ _
        (in_process-Keeps _ _ _ (Keeps-weaken _ _ _ (metrics_address-Clean R m)))
        (λ addr.
          Settles-bracket (Unit {0}) (Beside (Counts R)) (Beside (Counts (Within R))) _ _ _
            (serve_rpc-Keeps (Within R) m clients eth stack requests)
            (λ s h. subst (R s.0.open_dbs) (omega arith) h) (λ s h. h)))

-- As many handlers are not closed, and as many metrics servers not stopped, as before.
pub record IsBalanced (before after : World) : Type 0 where
  pub dbs : after.open_dbs ≡ before.open_dbs
  pub servers : after.metrics_servers ≡ before.metrics_servers

-- `P` holds of what a command leaves, or the command has exited.
abbrev pub UnlessExited : {S A : Type 0} → (World → Type 0) → Outcome A × (World × S) → Type 0
UnlessExited P r = ((x : Error) × (r.0 ≡ exited x)) ⊎ P r.1.0

-- Whatever the libraries answer, as many handlers of the local database are left unclosed, and as
-- many metrics servers unstopped, as before: after the command `finalityProvider`, and after
-- `rpcService`, with whatever requests, unless the command exits.
pub commands-IsBalanced :
    (m : Machine) (service : AppEnv) (clients : ProviderParts m.libraries → Clients)
    (eth : m.libraries.L2Client → EthRpc) (stack : HttpStack) (requests : List (ℤ × Bool))
    (w : World) (a : AppWorld service.Pk) (t : ServerWorld)
    → UnlessExited (IsBalanced w) (finality_provider m service (w, a))
      × UnlessExited (IsBalanced w) (rpc_service m clients eth stack requests (w, t))
commands-IsBalanced m service clients eth stack requests w a t =
    let R : ℕ → ℕ → Type 0 = λ dbs servers. (dbs ≡ w.open_dbs) × (servers ≡ w.metrics_servers) in
    let p = (finality_provider-Settles R m service).settled (w, a) (refl, refl) in
    let r = (rpc_service-Settles R m clients eth stack requests).settled (w, t) (refl, refl) in
    (
      elim p [ inl gone ↦ inl gone | inr kept ↦ inr (record { dbs = kept.0; servers = kept.1 }) ],
      elim r [ inl gone ↦ inl gone | inr kept ↦ inr (record { dbs = kept.0; servers = kept.1 }) ],
    )
