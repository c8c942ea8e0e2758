-- ===== src/Startup/SameChain.antt =====
-- That both L2 clients of the RPC server are of one chain (finality-gadget/rpc/rpc.go).
use blitz.Base.{
  ℕ, ◌≡◌, sym, ap, ◌∙◌, ◌⊎◌, inl, inr, Error, Reply, value, u64, ◌==◌, string_eq, Bool-cases,
}
use mathlib.Core.Path.{subst}
use blitz.Process.{returned, wrapping}
use blitz.Process.Inversion.{
  bind-Split, gets-returned, pure-returned, within-returned, wrapping-returned,
}
use blitz.Config.{BabylonConfig}
use blitz.Config.ChainId.{Accepts, new_l2_eth_client_iff}
use blitz.Startup.{Libraries, World, node, ask, l2_client}
use blitz.Startup.Servers.{
  ProviderParts, JsonRpcServer, babylon_client, bitcoin_client, provider_by,
  new_finalized_state_provider_from, new_json_rpc_server,
}

module _ (e : Libraries) where
  -- What is known of an L2 client that was built.
  record Client (s : World) (cli : e.L2Client) (t : World) : Type 0 where
    accepts : Accepts (node e s.instant) s.config.layer2 cli t.config.layer2

  l2_client-returned :
      (f : Error → Error) (s t : World) (cli : e.L2Client)
      → wrapping f (l2_client e) s ≡ (returned cli, t)
      → Client s cli t
  unfolding l2_client
  l2_client-returned f s t cli h =
      let a = within-returned _ _ _ _ _ _ (wrapping-returned _ _ _ _ _ h) in
      record {
        accepts =
            subst (λ l. Accepts (node e s.instant) s.config.layer2 cli l)
              (ap (λ w. w.config.layer2) a.1) ((new_l2_eth_client_iff _ _ _ _).0 a.0);
      }

  asked :
      {A : Type 0} (f : Error → Error) (call : ℕ → Reply A) (s t : World) (a : A)
      → ask e f call s ≡ (returned a, t)
      → s.config ≡ t.config
  unfolding ask
  asked f call s t a h = ap (λ p. p.1.config) h

  babylon-returned :
      (cfg : BabylonConfig) (s t : World) (b : e.BbnClient)
      → babylon_client e cfg s ≡ (returned b, t)
      → s.config ≡ t.config
  unfolding babylon_client
  babylon-returned cfg s t b h = ap (λ p. p.1.config) h

  bitcoin-returned :
      (cfg : BabylonConfig) (s t : World) (b : e.BtcClient)
      → bitcoin_client e cfg s ≡ (returned b, t)
      → s.config ≡ t.config
  unfolding bitcoin_client
  bitcoin-returned cfg s t b h = elim (Bool-cases (cfg.bitcoin_rpc_host == "mock-btc-client")) [
    | inl mock ↦ asked _ _ _ _ _ (rw mock at h)
    | inr real ↦ asked _ _ _ _ _ (rw real at h)
  ]

  -- The client of the provider, from the configuration it starts with.
  record FromConfig (s : World) (p : ProviderParts e) (t : World) : Type 0 where
    instant : ℕ
    accepts : Accepts (node e instant) s.config.layer2 p.l2_client t.config.layer2

  provider-returned :
      (s t : World) (p : ProviderParts e)
      → new_finalized_state_provider_from e s ≡ (returned p, t)
      → FromConfig s p t
  unfolding new_finalized_state_provider_from provider_by
  provider-returned s t p h =
      let a = bind-Split _ _ s t p h in
      let b = bind-Split _ _ a.mid t p a.rest in
      let c = bind-Split _ _ b.mid t p b.rest in
      let d = bind-Split _ _ c.mid t p c.rest in
      let cfg = gets-returned _ _ _ _ a.first in
      let client = l2_client-returned _ _ _ _ d.first in
      let same =
        ap (λ w. w.config) cfg.1
        ∙ babylon-returned _ _ _ _ b.first
        ∙ bitcoin-returned _ _ _ _ c.first in
      let made = pure-returned _ _ _ _ d.rest in
      record {
        instant = c.mid.instant;
        accepts =
            subst (λ l. Accepts (node e c.mid.instant) l p.l2_client t.config.layer2)
              (ap (λ g. g.layer2) (sym same))
              (subst
                (λ x.
                  Accepts (node e c.mid.instant) c.mid.config.layer2 x.l2_client t.config.layer2)
                made.0
                (subst
                  (λ x. Accepts (node e c.mid.instant) c.mid.config.layer2 d.result x.config.layer2)
                  made.1 client.accepts));
      }

  -- The ids that the nodes of both clients tell.
  pub record SharesChain (w : World) (server : JsonRpcServer e) (u : World) : Type 0 where
    pub instant : ℕ
    pub first_id : ℕ
    pub second_id : ℕ
    pub told : e.chain_id w.instant server.eth_client ≡ value first_id
    pub told_again : e.chain_id instant server.finalized_state_provider.l2_client ≡ value second_id
    pub expected : (w.config.layer2.chain_id ≡ 0) ⊎ (w.config.layer2.chain_id ≡ u64 first_id)
    pub same : (u64 first_id ≡ 0) ⊎ (u64 first_id ≡ u64 second_id)
    pub pinned : u.config.layer2.chain_id ≡ u64 second_id

  both :
      (w v u : World) (server : JsonRpcServer e)
      → Client w server.eth_client v
      → FromConfig v server.finalized_state_provider u
      → SharesChain w server u
  both w v u server c p =
      let a = c.accepts in
      let b = p.accepts in
      let id = ap (λ l. l.chain_id) a.pinned in
      record {
        instant = p.instant;
        first_id = a.actual;
        second_id = b.actual;
        told = a.told;
        told_again = b.told;
        expected = a.expected;
        same = subst (λ k. (k ≡ 0) ⊎ (k ≡ u64 b.actual)) id b.expected;
        pinned = ap (λ l. l.chain_id) b.pinned;
      }

  -- Where the RPC server is built, the node of its own L2 client tells the configured chain id, if
  -- one is configured; the node of its provider's client tells the same id, unless the first one
  -- told a multiple of 2^64; and that id is in the configuration afterwards.
  pub new_json_rpc_server-SharesChain :
      (w u : World) (server : JsonRpcServer e)
      → new_json_rpc_server e w ≡ (returned server, u)
      → SharesChain w server u
  unfolding new_json_rpc_server
  new_json_rpc_server-SharesChain w u server h =
      let a = bind-Split _ _ w u server h in
      let b = bind-Split _ _ a.mid u server a.rest in
      let c = bind-Split _ _ b.mid u server b.rest in
      let client = l2_client-returned _ _ _ _ a.first in
      let provider = provider-returned _ _ _ (wrapping-returned _ _ _ _ _ b.first) in
      let kept = gets-returned _ _ _ _ c.first in
      let made = pure-returned _ _ _ _ c.rest in
      subst (λ x. SharesChain w x u) made.0
        (subst (SharesChain w _) (kept.1 ∙ made.1) (both _ _ _ _ client provider))
