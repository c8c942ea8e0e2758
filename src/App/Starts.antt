-- ===== src/App/Starts.antt =====
-- `Start` of `FinalityProviderApp` (finality-gadget/operator/fp/app.go), with the goroutine of its RPC
-- server.
use blitz.Base.{◌+◌, String, Bool, ◌&&◌, wrap, received, ◌==◌, string_eq, if◌then◌else◌}
use mathlib.Core.Bool.{not}
use blitz.Exec.{Exec, wrapping}
use blitz.Process.{Process, of_result, outcome, or_exit, within, pure, modify, ◌>>=◌, ◌>>◌}
use blitz.App.{AppEnv, AppConfig, AppWorld, ask, start_chosen, stop_impl}

module _ (e : AppEnv) where
  abbrev pub serves_rpc : AppConfig → Bool
  serves_rpc app = not (app.json_rpc_server_ip_port_addr == "") && app.has_rpc

  -- `StartServer` in its goroutine, up to its endpoint: an error ends the process by `Fatalf`.
  unfoldable pub open_rpc : String → Process (AppWorld e.Pk) (Unit {0})
  open_rpc addr = do
    or_exit (wrap "Could not register API")
        (outcome (of_result (received e.rpc_stack.register_apis)))
    url ←
        or_exit (wrap "Could not start RPC api")
          (outcome (of_result (received (e.rpc_stack.start_http_endpoint addr))))
    pure tt

  -- What the goroutine does by now.
  unfoldable pub run_rpc : Bool → AppConfig → Process (AppWorld e.Pk) (Unit {0})
  run_rpc now app =
      if serves_rpc app && now then open_rpc app.json_rpc_server_ip_port_addr else pure tt

  -- The goroutine of the RPC server is started, and may come to its endpoint at once.
  unfoldable pub start_rpc : AppConfig → Process (AppWorld e.Pk) (Unit {0})
  start_rpc app = do
    modify (λ w. if serves_rpc app then record w { wg = w.wg + 1 } else w)
    run_rpc (not e.opens_late) app

  -- A method in the process.
  abbrev pub method : {A : Type 0} → Exec (AppWorld e.Pk) A → Process (AppWorld e.Pk) A
  method m = within (λ w. w) (λ w u. u) m

  -- `Start`: the loop only logs its ticks until the context is done.
  unfoldable pub start : AppConfig → String → Process (AppWorld e.Pk) (Unit {0})
  start app fp_pk_str = do
    method (ask e (wrap "failed to start the finality provider app") e.start)
    start_rpc app
    method (start_chosen e fp_pk_str)
    run_rpc e.opens_late app
    method (wrapping (wrap "stop failed") (stop_impl e))
