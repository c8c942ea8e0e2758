-- ===== src/Startup/NamedChain.antt =====
-- Under which chain id the command `fpsRestore` of finality-gadget-operator restores.
use blitz.Base.{
  ℕ, ◌<◌, ◌^◌, ◌≡◌, sym, ap, ◌∙◌, wrap, String, Bool, Option, some, Error, Result, ok, Reply,
  and_then-Both, int64, arith,
}
use blitz.Base.Decimal.{itoa}
use mathlib.Core.Path.{subst}
use blitz.Process.{returned, or_panic, modify}
use blitz.Process.Inversion.{bind-Split, outcome-returned}
use blitz.Process.Keeps.{Keeps, Keeps-pure, Keeps-gets, Keeps-outcome, Keeps-wrapping, Keeps-bind}
use blitz.Logging.{new_zap_logger_inner}
use blitz.Config.{Environment, l2_with_env}
use blitz.Config.Numbers.{l2_with_env-itoa}
use blitz.Config.Metrics.{metrics_with_env}
use blitz.Config.Operator.{OperatorConfig, operator_with_env}
use blitz.Fps.{FpEnv, FinalityProviderResponse}
use blitz.Fps.Outcomes.{Restores}
use blitz.Startup.{World, ask}
use blitz.Startup.Apps.{new_fps_cmd_provider}
use blitz.Startup.Commands.{Machine, configure, logger_inner, load_fp_config, new_app_params}
use blitz.Startup.OperatorCommands.{fps_provider, fps_restore}
use blitz.Startup.Restored.{fps_restore_iff}

-- The environment names the chain.
abbrev pub Names : Environment → ℕ → Type 0
Names env id = env "FINALITY_GADGET_LAYER2_CHAIN_ID" ≡ some (itoa (int64 id))

pub ok-inj : {A : Type 0} (a b : A) → ok a ≡ ok b → a ≡ b
ok-inj a b h = cc

operator_with_env-named :
    (env : Environment) (c d : OperatorConfig) (id : ℕ)
    → id < 2 ^ 64
    → Names env id
    → operator_with_env env c ≡ ok d
    → d.layer2.chain_id ≡ id
unfolding operator_with_env
operator_with_env-named env c d id small named h =
    let a = and_then-Both (l2_with_env env c.layer2) _ d h in
    let b = and_then-Both (metrics_with_env env c.metrics_config) _ d a.rest in
    let same = ok-inj _ _ (sym a.first ∙ l2_with_env-itoa env c.layer2 id small named) in
    ap (λ o. o.layer2.chain_id) (sym (ok-inj _ _ b.rest)) ∙ ap (λ l. l.chain_id) same

pub or_panic-returned : {A : Type 0} (r : Result A) (a : A) → or_panic r ≡ returned a → r ≡ ok a
or_panic-returned r a h = ground arith

abbrev HasChain : ℕ → World → Type 0
HasChain id w = w.config.layer2.chain_id ≡ id

module _ (m : Machine) (id : ℕ) where
  asks :
      {A : Type 0} (f : Error → Error) (call : ℕ → Reply A)
      → Keeps (Unit {0}) (HasChain id) (ask m.libraries f call)
  unfolding ask
  asks f call = record { kept = λ s h. h; exits = λ s e q. tt }

  logger_inner-Keeps : Keeps (Unit {0}) (HasChain id) (logger_inner m)
  unfolding logger_inner new_zap_logger_inner
  logger_inner-Keeps = Keeps-bind _ _ _ _ (Keeps-gets _ _ _) (λ c. Keeps-outcome _ _ _ (λ e h. tt))

  new_app_params-Keeps : Keeps (Unit {0}) (HasChain id) (new_app_params m)
  unfolding new_app_params load_fp_config
  new_app_params-Keeps =
      Keeps-bind _ _ _ _ (Keeps-bind _ _ _ _ (Keeps-gets _ _ _) (λ h. asks _ _))
        (λ c. Keeps-bind _ _ _ _ (asks _ _) (λ b. Keeps-pure _ _ _))

  new_fps_cmd_provider-Keeps :
      (cfg : m.libraries.FpConfig) (db : m.libraries.Backend)
      → Keeps (Unit {0}) (HasChain id) (new_fps_cmd_provider m.libraries cfg db)
  unfolding new_fps_cmd_provider
  new_fps_cmd_provider-Keeps cfg db =
      Keeps-bind _ _ _ _ (asks _ _)
        (λ cc. Keeps-bind _ _ _ _ (asks _ _) (λ u. Keeps-bind _ _ _ _ (asks _ _) (λ v. asks _ _)))

  configure-HasChain :
      (path : String) (w t : World)
      → id < 2 ^ 64
      → Names m.env id
      → configure m path w ≡ (returned tt, t)
      → HasChain id t
  unfolding configure modify
  configure-HasChain path w t small named h =
      let a = bind-Split _ _ w t tt h in
      let b = bind-Split _ _ a.mid t tt a.rest in
      let read = outcome-returned _ _ _ _ b.first in
      let named' =
        operator_with_env-named m.env a.result b.result id small named
          (or_panic-returned _ _ read) in
      ap (λ p. p.1.config.layer2.chain_id) (sym b.rest) ∙ named'

  fps_provider-HasChain :
      (w u : World) (app : m.libraries.FpStore)
      → id < 2 ^ 64
      → Names m.env id
      → fps_provider m w ≡ (returned app, u)
      → HasChain id u
  unfolding fps_provider
  fps_provider-HasChain w u app small named h =
      let a = bind-Split _ _ w u app h in
      let rest = Keeps-bind (Unit {0}) (HasChain id) _ _ logger_inner-Keeps (λ l.
        Keeps-bind _ _ _ _
          (Keeps-wrapping _ _ (wrap "failed to create params for app") _ new_app_params-Keeps)
          (λ p.
            Keeps-wrapping _ _ (wrap "failed to create cmd provider") _
              (new_fps_cmd_provider-Keeps p.0 p.1))) in
      subst (HasChain id) (ap (λ p. p.1) a.rest)
        (rest.kept a.mid (configure-HasChain _ _ _ small named a.first))

module _ (m : Machine) (e : FpEnv) (query : e.Pk → Reply (Option (FinalityProviderResponse e.Pk)))
    (power_of : e.Pk → ℕ → Reply Bool) where
  -- Where the environment names the chain, by the decimal text of an id below 2^64 as an `int`, a
  -- successful `fpsRestore` has restored the key under exactly that text, whatever the
  -- configuration file says.
  pub fps_restore-named :
      (key_name text : String) (id : ℕ) (w u : World) (s t : e.Store)
      → id < 2 ^ 64
      → Names m.env id
      → fps_restore m e query power_of key_name text (w, s) ≡ (returned tt, (u, t))
      → Restores e query power_of (itoa (int64 id)) text s t
  fps_restore-named key_name text id w u s t small named h =
      let r = (fps_restore_iff m e query power_of key_name text w u s t).0 h in
      subst (λ k. Restores e query power_of (itoa (int64 k)) text s t)
        (fps_provider-HasChain m id w u r.app small named r.built) r.restores
