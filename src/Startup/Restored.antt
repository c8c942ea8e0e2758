-- ===== src/Startup/Restored.antt =====
-- What the command `fpsRestore` of finality-gadget-operator does to the store.
use blitz.Base.{ℕ, ◌≡◌, refl, sym, ap, ◌∙◌, ◌↔◌, String, Bool, Option, ok, Reply, int64}
use blitz.Base.Decimal.{itoa}
use mathlib.Core.Path.{subst}
use blitz.Process.{returned, gets, part, within, ◌>>=◌}
use blitz.Process.Inversion.{bind-Split, gets-returned, within-returned, part-returned}
use blitz.Fps.{FpEnv, FinalityProviderResponse}
use blitz.Fps.Outcomes.{Restores, restore_fp_iff}
use blitz.Startup.{World}
use blitz.Startup.Commands.{Machine}
use blitz.Startup.OperatorCommands.{fps_provider, fps_restore}

module _ (m : Machine) (e : FpEnv) (query : e.Pk → Reply (Option (FinalityProviderResponse e.Pk)))
    (power_of : e.Pk → ℕ → Reply Bool) where
  -- What it takes for the command to succeed: its provider is built, and the restore succeeds with
  -- the configured chain id as a text.
  pub record RestoresBy (text : String) (w u : World) (s t : e.Store) : Type 0 where
    pub app : m.libraries.FpStore
    pub built : fps_provider m w ≡ (returned app, u)
    pub restores : Restores e query power_of (itoa (int64 u.config.layer2.chain_id)) text s t

  module _ (key_name text : String) (w u : World) (s t : e.Store) where
    restored :
        RestoresBy text w u s t
        → fps_restore m e query power_of key_name text (w, s) ≡ (returned tt, (u, t))
    unfolding fps_restore part within gets ◌>>=◌
    restored h =
        let r =
          (restore_fp_iff e query power_of (itoa (int64 u.config.layer2.chain_id)) text key_name s
              t).1
            h.restores in
        rw h.built (rw r refl)

    restores :
        fps_restore m e query power_of key_name text (w, s) ≡ (returned tt, (u, t))
        → RestoresBy text w u s t
    unfolding fps_restore
    restores h =
        let a = bind-Split _ _ (w, s) (u, t) tt h in
        let b = bind-Split _ _ a.mid (u, t) tt a.rest in
        let g = gets-returned _ _ _ _ b.first in
        let r = within-returned _ _ _ _ _ _ b.rest in
        let built = part-returned _ _ _ _ _ _ a.first in
        let process = ap (λ p. p.0) built.1 ∙ ap (λ p. p.0) g.1 ∙ ap (λ p. p.0) r.1 in
        let chain_id =
          sym g.0
          ∙ ap (λ p. p.0.config.layer2.chain_id) g.1
          ∙ ap (λ p. p.0.config.layer2.chain_id) r.1 in
        let store = ap (λ p. p.1) built.1 ∙ ap (λ p. p.1) g.1 in
        let done = r.0 ∙ ap (λ v. (ok tt, v)) (ap (λ p. p.1) r.1) in
        record {
          app = a.result;
          built = built.0 ∙ ap (λ v. (returned a.result, v)) process;
          restores =
              subst (λ k. Restores e query power_of (itoa (int64 k)) text s t) chain_id
                (subst (λ k. Restores e query power_of (itoa (int64 b.result)) text k t) (sym store)
                  ((restore_fp_iff e query power_of _ text key_name _ _).0 done));
        }

    -- The command `fpsRestore` succeeds, and leaves a process and a store, exactly where its
    -- provider is built in that process, and the key of the command line is restored into that
    -- store under the decimal text of the configured chain id.
    pub fps_restore_iff :
        (fps_restore m e query power_of key_name text (w, s) ≡ (returned tt, (u, t)))
        ↔ RestoresBy text w u s t
    fps_restore_iff = (restores, restored)
