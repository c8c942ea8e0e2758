-- ===== src/Config/ChainId.antt =====
-- Which node the client of finality-gadget/client/l2eth/l2client.go accepts.
use blitz.Base.{
  ℕ, ◌≡◌, ◌↔◌, ◌⊎◌, refl, sym, ap, ◌∙◌, String, ok, Reply, value, fails, u64, nat_eq, arith,
}
use blitz.Exec.{pure, raise, gets, modify, ◌>>=◌}
use blitz.Exec.Inversion.{bind-Split, gets-bind}
use mathlib.Core.Path.{subst}
use blitz.Config.{L2Config, Dialer, check_chain_id, reply, new_l2_eth_client}

module _ (d : Dialer) where
  -- What it takes for the client to be built.
  pub record Accepts (before : L2Config) (cli : d.Client) (after : L2Config) : Type 0 where
    pub actual : ℕ
    pub dialled : d.dial before.eth_rpc_url ≡ value cli
    pub told : d.chain_id cli ≡ value actual
    pub expected : (before.chain_id ≡ 0) ⊎ (before.chain_id ≡ u64 actual)
    pub pinned : after ≡ record before { chain_id = u64 actual }

  check_chain_id-pins :
      (actual : ℕ) (c : L2Config)
      → (c.chain_id ≡ 0) ⊎ (c.chain_id ≡ u64 actual)
      → check_chain_id d actual c ≡ (ok tt, record c { chain_id = u64 actual })
  unfolding check_chain_id ◌>>=◌ gets modify pure raise
  check_chain_id-pins actual c h = ground arith

  check_chain_id-pinned :
      (actual : ℕ) (c after : L2Config)
      → check_chain_id d actual c ≡ (ok tt, after)
      → ((c.chain_id ≡ 0) ⊎ (c.chain_id ≡ u64 actual))
        × (after ≡ record c { chain_id = u64 actual })
  unfolding check_chain_id ◌>>=◌ gets modify pure raise
  check_chain_id-pinned actual c after h = ground arith

  reply-ok :
      {A : Type 0} (message : String) (r : Reply A) (a : A) (s t : L2Config)
      → reply d message r s ≡ (ok a, t)
      → (r ≡ value a) × (s ≡ t)
  unfolding reply
  reply-ok message (value x) a s t h = (cc, ap (λ p. p.1) h)
  reply-ok message (fails m) a s t h = ground arith

  accepts :
      (before : L2Config) (cli : d.Client) (after : L2Config)
      → Accepts before cli after
      → new_l2_eth_client d before ≡ (ok cli, after)
  unfolding new_l2_eth_client reply ◌>>=◌ gets pure
  accepts before cli after h =
      rw (h.dialled, h.told, check_chain_id-pins h.actual before h.expected, h.pinned) refl

  accepted :
      (before : L2Config) (cli : d.Client) (after : L2Config)
      → new_l2_eth_client d before ≡ (ok cli, after)
      → Accepts before cli after
  unfolding new_l2_eth_client pure
  accepted before cli after h =
      let a = bind-Split _ _ before after cli (sym (gets-bind _ _ before) ∙ h) in
      let b = bind-Split _ _ a.mid after cli a.rest in
      let c = bind-Split _ _ b.mid after cli b.rest in
      let dialled = reply-ok _ _ _ _ _ a.first in
      let told = reply-ok _ _ _ _ _ b.first in
      let pinned = check_chain_id-pinned b.result b.mid c.mid c.first in
      let same : a.result ≡ cli = let e = ap (λ p. p.0) c.rest in cc in
      let kept = dialled.1 ∙ told.1 in
      record {
        actual = b.result;
        dialled = dialled.0 ∙ ap value same;
        told = ap d.chain_id (sym same) ∙ told.0;
        expected = subst (λ x. (x.chain_id ≡ 0) ⊎ (x.chain_id ≡ u64 b.result)) (sym kept) pinned.0;
        pinned =
            sym (ap (λ p. p.1) c.rest)
            ∙ pinned.1
            ∙ ap {A = L2Config} (λ x. record x { chain_id = u64 b.result }) (sym kept);
      }

  -- The client is built, and the configuration ends as `after`, exactly where the URL can be
  -- dialled, the node tells its chain id, that id is the expected one or none is expected, and
  -- `after` is the configuration with the id of the node.
  pub new_l2_eth_client_iff :
      (before : L2Config) (cli : d.Client) (after : L2Config)
      → (new_l2_eth_client d before ≡ (ok cli, after)) ↔ Accepts before cli after
  new_l2_eth_client_iff before cli after = (accepted before cli after, accepts before cli after)
