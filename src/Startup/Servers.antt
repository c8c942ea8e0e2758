-- ===== src/Startup/Servers.antt =====
-- The constructors of finality-gadget/rpc: `NewFinalizedStateProvider` and `NewJsonRpcServer`.
use blitz.Base.{
  ◌+◌, String, true, ◌&&◌, new, wrap, Reply, List, ◌==◌, string_eq, if◌then◌else◌, value, fails,
}
use mathlib.Core.Bool.{not}
use blitz.Process.{Process, Outcome, returned, panicked, pure, gets, wrapping, ◌>>=◌}
use blitz.Config.{BabylonConfig}
use blitz.Startup.{BtcConfig, Libraries, World, ask, l2_client}

-- The user and the password are set only together; otherwise the defaults stay.
abbrev pub btc_config : BtcConfig → BabylonConfig → BtcConfig
btc_config defaults cfg =
    let c = record defaults { rpc_host = cfg.bitcoin_rpc_host } in
    let c' =
      if not (cfg.bitcoin_rpc_user == "") && not (cfg.bitcoin_rpc_pass == "")
      then record c { rpc_user = cfg.bitcoin_rpc_user; rpc_pass = cfg.bitcoin_rpc_pass }
      else c in
    if cfg.bitcoin_disable_tls then record c' { disable_tls = true } else c'

abbrev pub nil_panics : {A : Type 0} → Reply A → Outcome A
nil_panics (value a) = returned a
nil_panics (fails message) = panicked (new "invalid memory address or nil pointer dereference")

module _ (e : Libraries) where
  -- The clients of a provider. Its caches are those of `Provider.new_finalized_state_provider`.
  pub record ProviderParts : Type 0 where
    pub bbn_client : e.BbnClient
    pub btc_client : e.BtcClient
    pub cw_client : e.CwClient
    pub l2_client : e.L2Client

  pub record JsonRpcServer : Type 0 where
    pub vhosts : List String
    pub cors : List String
    pub eth_client : e.L2Client
    pub finalized_state_provider : ProviderParts

  -- `babylonClient.QueryClient` is read before the error is looked at: where there is no client,
  -- that is a panic.
  unfoldable pub babylon_client : BabylonConfig → Process World e.BbnClient
  babylon_client cfg w = (
    nil_panics (e.new_bbn_client w.instant cfg.bbn_rpc_address cfg.bbn_chain_id),
    record w { instant = w.instant + 1 },
  )

  unfoldable pub bitcoin_client : BabylonConfig → Process World e.BtcClient
  bitcoin_client cfg =
      let config' = btc_config e.default_btc_config cfg in
      if cfg.bitcoin_rpc_host == "mock-btc-client"
      then ask e (λ x. x) (λ t. e.new_mock_bitcoin_client t config')
      else ask e (λ x. x) (λ t. e.new_bitcoin_client t config')

  -- The clients behind that of Babylon.
  unfoldable pub provider_by : BabylonConfig → e.BbnClient → Process World ProviderParts
  provider_by cfg bbn_client = do
    btc_client ← bitcoin_client cfg
    l2_client ← wrapping (wrap "failed to create l2 eth client") (l2_client e)
    pure (record {
      bbn_client = bbn_client;
      btc_client = btc_client;
      cw_client = e.new_cosm_wasm_client bbn_client cfg.fg_contract_address;
      l2_client = l2_client;
    })

  unfoldable pub new_finalized_state_provider_from : Process World ProviderParts
  new_finalized_state_provider_from = do
    cfg ← gets (λ w. w.config.babylon)
    bbn_client ← babylon_client cfg
    provider_by cfg bbn_client

  unfoldable pub new_json_rpc_server : Process World JsonRpcServer
  new_json_rpc_server = do
    eth_client ← wrapping (wrap "failed to create l2 eth client") (l2_client e)
    provider ←
        wrapping (wrap "failed to create finalizedStateProvider") new_finalized_state_provider_from
    common ← gets (λ w. w.config.common)
    pure (record {
      vhosts = common.rpc_vhosts;
      cors = common.rpc_cors;
      eth_client = eth_client;
      finalized_state_provider = provider;
    })
