-- ===== src/Signer/Named.antt =====
-- With which configuration the signer (finality-gadget/signer) serves.
use blitz.Base.{ℕ, ◌<◌, ◌^◌, ◌≡◌, sym, ap, ◌∙◌, String, [], ◌∷◌, ok, and_then-Both}
use mathlib.Core.Path.{subst}
use blitz.Cli.{Cli, IsDocumented}
use blitz.Process.{returned, modify, outcome}
use blitz.Process.Inversion.{
  bind-Split, gets-returned, outcome-returned, or_exit-returned, wrapping-returned, within-returned,
}
use blitz.Logging.{new_zap_logger}
use blitz.Config.{L2Config, l2_with_env}
use blitz.Config.Numbers.{l2_with_env-itoa}
use blitz.Config.ChainId.{Accepts, new_l2_eth_client_iff}
use blitz.Config.Operator.{SignerConfig, signer_with_env}
use blitz.Config.Files.{read_config}
use blitz.Startup.NamedChain.{Names, ok-inj, or_panic-returned}
use blitz.Signer.{
  SignerWorld, SignerMachine, zero_signer_config, configure, new_signer_service, signer_service,
  main_signer,
}
use blitz.Signer.Ends.{main_signer_iff}

module _ (m : SignerMachine) (id : ℕ) where
  -- The file is read, the environment goes before it, and its chain id is that of the node.
  pub record IsNamed (w u : SignerWorld) : Type 0 where
    pub file : SignerConfig
    pub read :
        (t : SignerWorld) × (read_config m.files m.config_flag "./finality-gadget-signer.yaml"
            zero_signer_config w
          ≡ (returned file, t))
    pub before : L2Config
    pub overridden : l2_with_env m.env file.layer2 ≡ ok before
    pub named : before.chain_id ≡ id
    pub client : m.node.Client
    pub accepted : Accepts m.node before client u.config.layer2

  -- What is configured.
  record Configured (w t : SignerWorld) : Type 0 where
    file : SignerConfig
    read :
        (s : SignerWorld) × (read_config m.files m.config_flag "./finality-gadget-signer.yaml"
            zero_signer_config w
          ≡ (returned file, s))
    overridden : l2_with_env m.env file.layer2 ≡ ok t.config.layer2

  layer2-overridden :
      (c d : SignerConfig)
      → signer_with_env m.env c ≡ ok d
      → l2_with_env m.env c.layer2 ≡ ok d.layer2
  unfolding signer_with_env
  layer2-overridden c d h =
      let a = and_then-Both (l2_with_env m.env c.layer2) _ d h in
      a.first ∙ ap (λ o. ok o.layer2) (ok-inj _ _ a.rest)

  configure-Configured : (w t : SignerWorld) → configure m w ≡ (returned tt, t) → Configured w t
  unfolding configure modify
  configure-Configured w t h =
      let a = bind-Split _ _ w t tt h in
      let b = bind-Split _ _ a.mid t tt a.rest in
      let result = or_panic-returned _ _ (outcome-returned _ _ _ _ b.first) in
      record {
        file = a.result;
        read = (a.mid, or_exit-returned _ _ _ _ _ a.first);
        overridden =
            layer2-overridden a.result b.result result ∙ ap (λ p. ok p.1.config.layer2) b.rest;
      }

  signer_service-IsNamed :
      (w u : SignerWorld) (service : m.node.Client)
      → id < 2 ^ 64
      → Names m.env id
      → signer_service m w ≡ (returned service, u)
      → IsNamed w u
  unfolding signer_service new_signer_service new_zap_logger outcome
  signer_service-IsNamed w u service small named h =
      let a = bind-Split _ _ w u service h in
      let b = bind-Split _ _ a.mid u service a.rest in
      let c = bind-Split _ _ b.mid u service b.rest in
      let settings = configure-Configured w a.mid a.first in
      let same : a.mid ≡ c.mid = (gets-returned _ _ _ _ b.first).1 ∙ ap (λ p. p.1) c.first in
      let built =
        within-returned _ _ _ _ _ _
          (wrapping-returned _ _ _ _ _ (or_exit-returned _ _ _ _ _ c.rest)) in
      let overridden : l2_with_env m.env settings.file.layer2 ≡ ok c.mid.config.layer2 =
        settings.overridden ∙ ap (λ x. ok x.config.layer2) same in
      record {
        file = settings.file;
        read = settings.read;
        before = c.mid.config.layer2;
        overridden = overridden;
        named =
            ap (λ l. l.chain_id)
              (ok-inj _ _
                (sym overridden ∙ l2_with_env-itoa m.env settings.file.layer2 id small named));
        client = service;
        accepted =
            subst (λ x. Accepts m.node c.mid.config.layer2 service x.config.layer2) built.1
              ((new_l2_eth_client_iff m.node _ _ _).0 built.0);
      }

  -- Where the environment names the chain, by the decimal text of an id below 2^64 as an `int`,
  -- and urfave/cli calls the action of the app if no word is given, as it documents: a signer that
  -- is started so and ends without an error has read its file, the environment went before the
  -- file, whatever chain id the file says, and its L2 client was built on the configured URL of a
  -- node that tells the named id, or any id if 0 is named; the id of the node is in the
  -- configuration afterwards.
  pub main_signer-IsNamed :
      (cli : Cli) (ticks : ℕ) (program : String) (w u : SignerWorld)
      → IsDocumented cli
      → id < 2 ^ 64
      → Names m.env id
      → main_signer m cli ticks (program ∷ []) w ≡ (returned tt, u)
      → IsNamed w u
  main_signer-IsNamed cli ticks program w u documented small named h =
      let served = (main_signer_iff m ticks w u cli documented program).0 h in
      let inner = signer_service-IsNamed w served.ready served.service small named served.built in
      subst (IsNamed w) (sym served.left) (record {
        file = inner.file;
        read = inner.read;
        before = inner.before;
        overridden = inner.overridden;
        named = inner.named;
        client = inner.client;
        accepted = inner.accepted;
      })
