-- ===== src/Startup/Panics.antt =====
-- When building the finalized-state provider panics, and that the collectors never do.
use blitz.Base.{
  ◌≡◌, ◌≢◌, ◌↔◌, refl, sym, ◌∙◌, inl, inr, ℕ, ◌+◌, String, true, Error, Reply, fails, received,
  map_err, ◌==◌, string_eq, Reply-cases, arith,
}
use blitz.Process.{returned, panicked, exited, pure, panic, gets, modify, ◌>>=◌}
use blitz.Process.Calm.{
  Calm, of_result-calm, Calm-pure, Calm-wrapping, Calm-if, Calm-bind, Calm-within,
}
use blitz.Config.{BabylonConfig, new_l2_eth_client}
use blitz.Startup.{Libraries, World, put_layer2, node, ask, l2_client}
use blitz.Startup.Servers.{
  babylon_client, bitcoin_client, provider_by, new_finalized_state_provider_from,
}
use blitz.Startup.Cleanup.{new_finalized_state_provider-Clean}
use blitz.Startup.Apps.{must_register, new_fp_metrics}

module _ (e : Libraries) where
  ask-Calm : {A : Type 0} (f : Error → Error) (call : ℕ → Reply A) → Calm (ask e f call)
  unfolding ask
  ask-Calm f call = record {
    calm = λ s x h. of_result-calm (map_err f (received (call s.instant))) x h;
  }

  l2_client-Calm : Calm (l2_client e)
  unfolding l2_client
  l2_client-Calm = record {
    calm = λ s x h.
        (Calm-within (λ u. u.config.layer2) put_layer2 (new_l2_eth_client (node e s.instant))).calm
          s x h;
  }

  bitcoin_client-Calm : (cfg : BabylonConfig) → Calm (bitcoin_client e cfg)
  unfolding bitcoin_client
  bitcoin_client-Calm cfg =
      Calm-if (cfg.bitcoin_rpc_host == "mock-btc-client") _ _ (ask-Calm _ _) (ask-Calm _ _)

  provider_by-Calm : (cfg : BabylonConfig) (b : e.BbnClient) → Calm (provider_by e cfg b)
  unfolding provider_by
  provider_by-Calm cfg b =
      Calm-bind _ _ (bitcoin_client-Calm cfg)
        (λ c. Calm-bind _ _ (Calm-wrapping _ _ l2_client-Calm) (λ l. Calm-pure _))

  never_exits : (w : World) (x : Error) → (new_finalized_state_provider_from e w).0 ≢ exited x
  never_exits w x q =
      elim ((new_finalized_state_provider-Clean (λ dbs servers. Unit {0}) e).exits w x q) [ ]

  panics_iff :
      (w : World)
      → ((x : Error) × ((new_finalized_state_provider_from e w).0 ≡ panicked x)) ↔ (
          (message : String) × (e.new_bbn_client w.instant w.config.babylon.bbn_rpc_address
              w.config.babylon.bbn_chain_id
            ≡ fails message))
  unfolding new_finalized_state_provider_from babylon_client gets ◌>>=◌
  panics_iff w =
      elim (Reply-cases (
        e.new_bbn_client w.instant w.config.babylon.bbn_rpc_address
          w.config.babylon.bbn_chain_id)) [
            | inr (message, q) ↦ (λ h. (message, q), λ h. rw q (_, refl))
            | inl (b, q) ↦ (
              λ h.
                  elim ((provider_by-Calm w.config.babylon b).calm
                    (record w { instant = w.instant + 1 }) h.0 (rw q at h.1)) [ ],
              λ h. let r = sym q ∙ h.1 in ground arith,
            )
          ]

  -- The constructor panics exactly if no Babylon client can be built: the error of that is looked
  -- at too late. It never exits the process.
  pub new_finalized_state_provider-panics_iff :
      (w : World)
      → (((x : Error) × ((new_finalized_state_provider_from e w).0 ≡ panicked x)) ↔ (
          (message : String) × (e.new_bbn_client w.instant w.config.babylon.bbn_rpc_address
              w.config.babylon.bbn_chain_id
            ≡ fails message)))
        × ((x : Error) → (new_finalized_state_provider_from e w).0 ≢ exited x)
  new_finalized_state_provider-panics_iff w = (panics_iff w, never_exits w)

-- The collectors are registered exactly if `fpMetricsRegisterOnce` is used up.
abbrev pub IsRegisteredOnce : World → Type 0
IsRegisteredOnce w = w.registered ≡ w.fp_metrics_once

-- If the collectors are registered exactly if they have been made, then making them never panics:
-- the first call registers them, and a call after it changes nothing.
pub new_fp_metrics-registers :
    (w : World)
    → IsRegisteredOnce w
    → new_fp_metrics w ≡ (returned tt, record w { fp_metrics_once = true; registered = true })
unfolding new_fp_metrics must_register gets modify pure panic ◌>>=◌
new_fp_metrics-registers w h = ground arith
