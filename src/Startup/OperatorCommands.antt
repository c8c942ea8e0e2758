-- ===== src/Startup/OperatorCommands.antt =====
-- The three commands of finality-gadget/operator/finality-gadget-operator: `finalityProvider`
-- (service.go), `fpsRestore` and `fpsShow` (fps.go), on the process and what they serve.
use blitz.Base.{ℕ, String, Bool, wrap, Option, List, Reply, int64}
use blitz.Base.Decimal.{itoa}
use blitz.Process.{Process, gets, modify, wrapping, deferring, part, within, ◌>>=◌, ◌>>◌}
use blitz.App.{AppEnv, AppConfig, AppWorld}
use blitz.App.Starts.{start}
use blitz.Fps.{FpEnv, FinalityProviderResponse, restore_fp, list_all_finality_providers_info}
use blitz.Startup.{World}
use blitz.Startup.Apps.{FinalityProviderApp, new_fps_cmd_provider}
use blitz.Startup.Commands.{
  in_process, Machine, is_some, configure, logger_inner, new_app_params, new_app, metrics_address,
  start_metrics, stop_metrics,
}

abbrev pub default_config_path : String
default_config_path = "./finality-gadget-operator.yaml"

module _ (m : Machine) where
  -- The fields that `Start` reads.
  abbrev pub app_config : FinalityProviderApp m.libraries → AppConfig
  app_config app = record {
    json_rpc_server_ip_port_addr = app.json_rpc_server_ip_port_addr;
    has_rpc = is_some app.rpc;
  }

  module _ (service : AppEnv) where
    unfoldable pub start_app :
        FinalityProviderApp m.libraries → String → Process (World × AppWorld service.Pk) (Unit {0})
    start_app app btc_pk =
        wrapping (wrap "failed to create Start for app")
          (part (λ s. s.1) (λ s a. (s.0, a)) (start service (app_config app) btc_pk))

    -- Behind the start of the metrics server.
    unfoldable pub provide : Process (World × AppWorld service.Pk) (Unit {0})
    provide = do
      app ←
          wrapping (wrap "failed to create NewFinalityProviderAppFromConfig for app")
            (in_process (new_app m))
      btc_pk ← gets (λ s. s.0.config.btc_pk)
      start_app app btc_pk

    unfoldable pub finality_provider : Process (World × AppWorld service.Pk) (Unit {0})
    finality_provider = do
      in_process (configure m default_config_path)
      prom_addr ← in_process (metrics_address m)
      modify (λ s. (start_metrics prom_addr s.0, s.1))
      deferring (λ s. (stop_metrics s.0, s.1)) provide

  -- What both `fps` commands begin with.
  unfoldable pub fps_provider : Process World m.libraries.FpStore
  fps_provider = do
    configure m default_config_path
    zap_logger ← logger_inner m
    params ← wrapping (wrap "failed to create params for app") (new_app_params m)
    wrapping (wrap "failed to create cmd provider")
        (new_fps_cmd_provider m.libraries params.0 params.1)

  module _ (e : FpEnv)
      (query_finality_provider : e.Pk → Reply (Option (FinalityProviderResponse e.Pk)))
      (query_has_power : e.Pk → ℕ → Reply Bool) where
    -- The arguments of the command line, and the chain id as a text.
    unfoldable pub fps_restore : String → String → Process (World × e.Store) (Unit {0})
    fps_restore key_name fp_btc_pk = do
      app ← in_process fps_provider
      chain_id ← gets (λ s. s.0.config.layer2.chain_id)
      within (λ s. s.1) (λ s t. (s.0, t))
          (restore_fp e query_finality_provider query_has_power key_name (itoa (int64 chain_id))
            fp_btc_pk)

    -- The result is what is printed, a line for each.
    unfoldable pub fps_show : Process (World × e.Store) (List e.Info)
    fps_show = do
      app ← in_process fps_provider
      wrapping (wrap "failed to GetAllStoredFinalityProviders") (
          within (λ s. s.1) (λ s t. (s.0, t))
            (list_all_finality_providers_info e query_finality_provider query_has_power))
