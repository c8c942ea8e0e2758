-- ===== src/App.antt =====
-- `FinalityProviderApp` (finality-gadget/operator/fp/app.go): the start of one finality provider,
-- and the stop of everything.
pub mod Starts
pub mod Lifecycle
pub mod Choice
use blitz.Base.{
  ℕ, ◌+◌, String, Bool, true, false, ◌&&◌, List, [], ◌∷◌, ◌++◌, Error, new, wrap, Reply, received,
  map_err, ◌==◌, string_eq, if◌then◌else◌,
}
use mathlib.Core.Bool.{not}
use blitz.Rpc.Serving.{HttpStack}
use blitz.Exec.{Exec, pure, raise, gets, modify, wrapping, ◌>>=◌, ◌>>◌}

-- What is external: the key codec, `service.FinalityProviderApp`, its store, and the EOTS manager,
-- each asked at an instant; and the HTTP stack of the RPC server, and the scheduler, by which the
-- goroutine of that server comes to its endpoint before a provider is chosen, or only after.
pub record AppEnv : Type 1 where
  pub Pk : Type 0
  pub pub_key_from_hex : String → Reply Pk
  pub start : ℕ → Reply (Unit {0})
  pub start_finality_provider : ℕ → Pk → Reply (Unit {0})
  pub get_all_stored_finality_providers : ℕ → Reply (List Pk)
  pub stop : ℕ → Reply (Unit {0})
  pub close : ℕ → Reply (Unit {0})
  pub rpc_stack : HttpStack
  pub opens_late : Bool

-- The fields that are set once: the address of the RPC server, and whether there is one.
pub record AppConfig : Type 0 where
  pub json_rpc_server_ip_port_addr : String
  pub has_rpc : Bool

-- `stopOnce`, `quit` (closed or not), the counter of `wg`, the instant of the next external call,
-- and what was called: `StartFinalityProvider`, `Stop` and `Close`.
pub record AppWorld (Pk : Type 0) : Type 0 where
  pub stop_once : Bool
  pub quit_closed : Bool
  pub wg : ℕ
  pub instant : ℕ
  pub started : List Pk
  pub stops : ℕ
  pub closes : ℕ

module _ (e : AppEnv) where
  -- An external call, the error of which is wrapped.
  unfoldable pub ask : {A : Type 0} → (Error → Error) → (ℕ → Reply A) → Exec (AppWorld e.Pk) A
  ask wrapper call w =
      (map_err wrapper (received (call w.instant)), record w { instant = w.instant + 1 })

  -- `app.fpApp.StartFinalityProvider(ctx, pk)`
  unfoldable pub start_instance : String → e.Pk → Exec (AppWorld e.Pk) (Unit {0})
  start_instance message pk = do
    modify (λ w. record w { started = w.started ++ pk ∷ [] })
    ask (wrap message) (λ t. e.start_finality_provider t pk)

  unfoldable pub start_by_key : String → Exec (AppWorld e.Pk) (Unit {0})
  start_by_key fp_pk_str = do
    fp_pk ← ask (wrap "invalid finality provider public key") (λ t. e.pub_key_from_hex fp_pk_str)
    start_instance "failed to start by fpPkStr" fp_pk

  -- One stored provider is started; with more of them the caller has to choose.
  unfoldable pub start_stored : List e.Pk → Exec (AppWorld e.Pk) (Unit {0})
  start_stored [] = pure tt
  start_stored (pk ∷ []) = start_instance "failed to start by storedFps" pk
  start_stored (pk ∷ other ∷ rest) =
      raise (new "finality providers found in DB. Please specify the EOTS public key")

  unfoldable pub start_by_store : Exec (AppWorld e.Pk) (Unit {0})
  start_by_store = do
    stored_fps ← ask (λ x. x) e.get_all_stored_finality_providers
    start_stored stored_fps

  unfoldable pub start_chosen : String → Exec (AppWorld e.Pk) (Unit {0})
  start_chosen fp_pk_str = if fp_pk_str == "" then start_by_store else start_by_key fp_pk_str

  -- `close(app.quit)`, which panics on a closed channel
  unfoldable pub close_quit : Exec (AppWorld e.Pk) (Unit {0})
  close_quit = do
    closed ← gets (λ w. w.quit_closed)
    if closed
        then raise (new "close of closed channel")
        else modify (λ w. record w { quit_closed = true })

  -- `app.wg.Wait()`, behind which no goroutine of the group runs
  unfoldable pub wait : Exec (AppWorld e.Pk) (Unit {0})
  wait = modify (λ w. record w { wg = 0 })

  -- The function that `stopOnce` guards.
  unfoldable pub stop_all : Exec (AppWorld e.Pk) (Unit {0})
  stop_all = do
    close_quit
    wait
    modify (λ w. record w { stops = w.stops + 1 })
    ask (λ x. x) e.stop
    modify (λ w. record w { closes = w.closes + 1 })
    ask (λ x. x) e.close

  unfoldable pub stop_impl : Exec (AppWorld e.Pk) (Unit {0})
  stop_impl = do
    done ← gets (λ w. w.stop_once)
    if done then pure tt else (do modify (λ w. record w { stop_once = true }); stop_all)
