-- ===== src/Startup/Pieces.antt =====
-- What the steps of the commands leave open, one by one.
use blitz.Base.{ℕ, ◌≡◌, String, Error, Reply, arith}
use blitz.Process.{exited}
use blitz.Process.Keeps.{
  Keeps, Keeps-pure, Keeps-gets, Keeps-result, Keeps-outcome, Keeps-wrapping, Keeps-if,
  Keeps-modify, Keeps-bind, Keeps-or_exit, Keeps-exit,
}
use blitz.Logging.{new_zap_logger, new_zap_logger_inner, or_panics}
use blitz.Config.Files.{Files, read_yaml_config, read_config, config_path}
use blitz.Startup.Commands.{
  Machine, configure, logger_inner, logger, load_fp_config, new_app_params, new_app, new_rpc_app,
  metrics_address,
}
use blitz.Startup.Cleanup.{Counts, Clean, ask-Clean, new_json_rpc_server-Clean, app-Clean}

or_panics-stays : {A : Type 0} (r : Reply A) (x : Error) → or_panics r ≡ exited x → ⊥
or_panics-stays (Reply.value a) x h = ground arith
or_panics-stays (Reply.fails m) x h = ground arith

-- Reading a file touches nothing of the process; it may end it.
read_config-Keeps :
    {S A : Type 0} (P : S → Type 0) (f : Files A) (flag default_path : String) (o : A)
    → Keeps (Unit {0}) P (read_config {S = S} f flag default_path o)
unfolding read_config read_yaml_config
read_config-Keeps P f flag default_path o =
    Keeps-if _ _ (f.is_missing (config_path flag default_path)) _ _ (Keeps-exit _ _)
      (Keeps-bind _ _ _ _ (Keeps-result _ _ _) (λ b. Keeps-or_exit _ _ _ (Keeps-result _ _ _)))

module _ (R : ℕ → ℕ → Type 0) (m : Machine) where
  pub configure-Keeps : (path : String) → Keeps (Unit {0}) (Counts R) (configure m path)
  unfolding configure
  configure-Keeps path =
      Keeps-bind _ _ _ _ (Keeps-or_exit _ _ _ (read_config-Keeps _ _ _ _ _)) (λ c.
        Keeps-bind _ _ _ _ (Keeps-outcome _ _ _ (λ e h. tt)) (λ d. Keeps-modify _ _ _ (λ w h. h)))

  logger_inner-Clean : Clean R (logger_inner m)
  unfolding logger_inner new_zap_logger_inner
  logger_inner-Clean =
      Keeps-bind _ _ _ _ (Keeps-gets _ _ _)
        (λ c. Keeps-outcome _ _ _ (λ e h. or_panics-stays _ e h))

  logger-Clean : Clean R (logger m)
  unfolding logger new_zap_logger
  logger-Clean =
      Keeps-bind _ _ _ _ (Keeps-gets _ _ _)
        (λ c. Keeps-outcome _ _ _ (λ e h. or_panics-stays _ e h))

  pub metrics_address-Clean : Clean R (metrics_address m)
  unfolding metrics_address
  metrics_address-Clean = Keeps-bind _ _ _ _ logger-Clean (λ a.
      Keeps-bind _ _ _ _ logger_inner-Clean (λ b.
        Keeps-bind _ _ _ _ (Keeps-gets _ _ _) (λ c. Keeps-wrapping _ _ _ _ (Keeps-result _ _ _))))

  load_fp_config-Clean : Clean R (load_fp_config m)
  unfolding load_fp_config
  load_fp_config-Clean = Keeps-bind _ _ _ _ (Keeps-gets _ _ _) (λ c. ask-Clean R _ _ _)

  new_app_params-Clean : Clean R (new_app_params m)
  unfolding new_app_params
  new_app_params-Clean =
      Keeps-bind _ _ _ _ load_fp_config-Clean
        (λ c. Keeps-bind _ _ _ _ (ask-Clean R _ _ _) (λ b. Keeps-pure _ _ _))

  pub new_app-Clean : Clean R (new_app m)
  unfolding new_app
  new_app-Clean = Keeps-bind _ _ _ _ logger_inner-Clean (λ l.
      Keeps-bind _ _ _ _ (Keeps-wrapping _ _ _ _ new_app_params-Clean)
        (λ p. Keeps-wrapping _ _ _ _ (app-Clean R _ _ _)))

  pub new_rpc_app-Clean : Clean R (new_rpc_app m)
  unfolding new_rpc_app
  new_rpc_app-Clean = Keeps-bind _ _ _ _ load_fp_config-Clean (λ c.
      Keeps-bind _ _ _ _ logger_inner-Clean
        (λ l. Keeps-wrapping _ _ _ _ (new_json_rpc_server-Clean R _)))
