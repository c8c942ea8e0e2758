-- ===== src/Startup/Cleanup.antt =====
-- What the constructors and the commands leave open: the local database and the metrics server.
use blitz.Base.{
  value, fails, ◌≢◌, ℕ, ◌-◌, String, Error, Option, Reply, received, map_err, ◌==◌, string_eq,
  arith,
}
use mathlib.Core.Bool.{not}
use mathlib.Core.Path.{subst}
use blitz.Process.{Process, exited, modify, wrapping, deferring, within, ◌>>=◌, ◌>>◌}
use blitz.Process.Keeps.{
  of_result-stays, Keeps, Keeps-pure, Keeps-panic, Keeps-gets, Keeps-wrapping, Keeps-if,
  Keeps-modify, Keeps-bind, Keeps-bracket,
}
use blitz.Config.{BabylonConfig, new_l2_eth_client}
use blitz.Controller.{OrbitConsumerController}
use blitz.Startup.{Libraries, World, node, ask, l2_client}
use blitz.Startup.Servers.{
  JsonRpcServer, nil_panics, babylon_client, bitcoin_client, provider_by,
  new_finalized_state_provider_from, new_json_rpc_server,
}
use blitz.Startup.Apps.{
  must_register, new_fp_metrics, with_handler, open_handler, close_handler,
  new_orbit_consumer_controller_from, new_finality_provider_app, new_eots_manager_client,
  rpc_server, new_finality_provider_app_from_config,
}

-- What a relation of the two numbers, of open databases and of metrics servers, is kept by.
abbrev pub Counts : (ℕ → ℕ → Type 0) → World → Type 0
Counts R w = R w.open_dbs w.metrics_servers

nil_panics-stays : {A : Type 0} (r : Reply A) (x : Error) → nil_panics r ≢ exited x
nil_panics-stays (value a) x h = ground arith
nil_panics-stays (fails m) x h = ground arith

module _ (R : ℕ → ℕ → Type 0) where
  -- A process that keeps the two numbers in relation, and does not exit.
  abbrev pub Clean : {A : Type 0} → Process World A → Type 0
  Clean m = Keeps ⊥ (Counts R) m

  -- A step that touches neither number.
  neutral : (f : World → World) → ((w : World) → Counts R w → Counts R (f w)) → Clean (modify f)
  neutral f h = Keeps-modify _ _ f h

  then :
      {A B : Type 0} {m : Process World A} {f : A → Process World B}
      → Clean m
      → ((a : A) → Clean (f a))
      → Clean (m >>= f)
  then h k = Keeps-bind _ _ _ _ h k

  pub new_fp_metrics-Clean : Clean new_fp_metrics
  unfolding new_fp_metrics must_register
  new_fp_metrics-Clean = then (Keeps-gets _ _ _) (λ once.
      Keeps-if _ _ once _ _ (Keeps-pure _ _ tt) (
        then (neutral _ (λ w h. h)) (λ u.
          then (Keeps-gets _ _ _)
            (λ r. Keeps-if _ _ r _ _ (Keeps-panic _ _ _) (neutral _ (λ w h. h))))))

  module _ (e : Libraries) where
    pub ask-Clean :
        {A : Type 0} (wrapper : Error → Error) (call : ℕ → Reply A) → Clean (ask e wrapper call)
    unfolding ask
    ask-Clean wrapper call = record {
      kept = λ s h. h;
      exits = λ s x q. of_result-stays (map_err wrapper (received (call s.instant))) x q;
    }

    l2_client-Clean : Clean (l2_client e)
    unfolding l2_client within
    l2_client-Clean = record {
      kept = λ s h. h;
      exits = λ s x q. of_result-stays (new_l2_eth_client (node e s.instant) s.config.layer2).0 x q;
    }

    babylon_client-Clean : (cfg : BabylonConfig) → Clean (babylon_client e cfg)
    unfolding babylon_client
    babylon_client-Clean cfg = record {
      kept = λ s h. h;
      exits = λ s x q.
          nil_panics-stays (e.new_bbn_client s.instant cfg.bbn_rpc_address cfg.bbn_chain_id) x q;
    }

    bitcoin_client-Clean : (cfg : BabylonConfig) → Clean (bitcoin_client e cfg)
    unfolding bitcoin_client
    bitcoin_client-Clean cfg =
        Keeps-if _ _ (cfg.bitcoin_rpc_host == "mock-btc-client") _ _ (ask-Clean _ _) (ask-Clean _ _)

    wrapped_l2 : (f : Error → Error) → Clean (wrapping f (l2_client e))
    wrapped_l2 f = Keeps-wrapping _ _ f _ l2_client-Clean

    pub new_finalized_state_provider-Clean : Clean (new_finalized_state_provider_from e)
    unfolding new_finalized_state_provider_from provider_by
    new_finalized_state_provider-Clean = then (Keeps-gets _ _ _) (λ cfg.
        then (babylon_client-Clean cfg)
          (λ b. then (bitcoin_client-Clean cfg) (λ c. then (wrapped_l2 _) (λ l. Keeps-pure _ _ _))))

    pub new_json_rpc_server-Clean : Clean (new_json_rpc_server e)
    unfolding new_json_rpc_server
    new_json_rpc_server-Clean = then (wrapped_l2 _) (λ l.
        then (Keeps-wrapping _ _ _ _ new_finalized_state_provider-Clean)
          (λ p. then (Keeps-gets _ _ _) (λ c. Keeps-pure _ _ _)))

    with_handler-Clean : Clean (with_handler e)
    unfolding with_handler
    with_handler-Clean =
        then (ask-Clean _ _)
          (λ u. then (Keeps-gets _ _ _) (λ l. then (neutral _ (λ w h. h)) (λ v. Keeps-pure _ _ _)))

-- The database is opened once more inside, and closed again.
bracket-Clean :
    (R : ℕ → ℕ → Type 0) (e : Libraries)
    → Clean R (modify open_handler >> deferring close_handler (with_handler e))
bracket-Clean R e =
    Keeps-bracket ⊥ (Counts R) (Counts (λ dbs. R (dbs - 1))) open_handler close_handler
      (with_handler e) (with_handler-Clean (λ dbs. R (dbs - 1)) e)
      (λ s h. subst (λ k. R k s.metrics_servers) (omega arith) h) (λ x. elim x [ ]) (λ s h. h)

module _ (R : ℕ → ℕ → Type 0) (e : Libraries) where
  controller-Clean : (c : e.FpConfig) → Clean R (new_orbit_consumer_controller_from e c)
  unfolding new_orbit_consumer_controller_from
  controller-Clean c = then R (ask-Clean R e _ _) (λ a. then R (ask-Clean R e _ _) (λ b.
      then R (ask-Clean R e _ _) (λ d.
        then R (Keeps-gets _ _ _) (λ f. then R (ask-Clean R e _ _) (λ g. bracket-Clean R e)))))

  new_finality_provider_app-Clean :
      (c : e.FpConfig) (o : OrbitConsumerController) (db : e.Backend)
      (rpc : Option (JsonRpcServer e)) (addr : String)
      → Clean R (new_finality_provider_app e c o db rpc addr)
  unfolding new_finality_provider_app
  new_finality_provider_app-Clean c o db rpc addr =
      then R (ask-Clean R e _ _) (λ a. then R (ask-Clean R e _ _) (λ b. Keeps-pure _ _ _))

  rpc_server-Clean : (addr : String) → Clean R (rpc_server e addr)
  unfolding rpc_server
  rpc_server-Clean addr =
      Keeps-if _ _ (not (addr == "")) _ _
        (then R (Keeps-wrapping _ _ _ _ (new_json_rpc_server-Clean R e)) (λ s. Keeps-pure _ _ _))
        (Keeps-pure _ _ _)

  -- Building the app keeps the two numbers in relation, too.
  pub app-Clean :
      (c : e.FpConfig) (db : e.Backend) → Clean R (new_finality_provider_app_from_config e c db)
  unfolding new_finality_provider_app_from_config new_eots_manager_client
  app-Clean c db = then R (new_fp_metrics-Clean R) (λ u. then R (Keeps-gets _ _ _) (λ cfg.
      then R (Keeps-wrapping _ _ _ _ (ask-Clean R e _ _)) (λ em. then R (ask-Clean R e _ _) (λ cc.
        then R (Keeps-wrapping _ _ _ _ (controller-Clean c)) (λ con.
          then R (rpc_server-Clean _) (λ rpc. new_finality_provider_app-Clean _ _ _ _ _))))))
