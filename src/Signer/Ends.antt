-- ===== src/Signer/Ends.antt =====
-- How the signer ends.
use blitz.Base.{ℕ, zero, suc, ◌+◌, ◌≡◌, refl, sym, ap, ◌∙◌, ◌↔◌, arith, String, [], ◌∷◌, wrap}
use mathlib.Core.Path.{subst}
use blitz.Cli.{Cli, IsDocumented, run_route}
use blitz.Process.{returned, pure, modify, wrapping, deferring, ◌>>=◌}
use blitz.Process.Inversion.{bind-Split, or_exit-returned, or_exit-kept}
use blitz.Signer.{
  SignerWorld, SignerMachine, loop, start, wait, start_and_wait, signer_service, signer_main,
  SignerAction, signer_app, main_signer,
}

loop_lem : (n : ℕ) (w : SignerWorld) → loop n w ≡ (returned tt, record w { ticks = w.ticks + n })
unfolding loop modify pure ◌>>=◌
loop_lem zero w = ap (λ k. (returned tt, record w { ticks = k })) (omega arith)
loop_lem (suc n) w =
    loop_lem n (record w { ticks = w.ticks + 1 })
    ∙ ap (λ k. (returned tt, record w { ticks = k })) (omega arith)

start_lem : (n : ℕ) (w : SignerWorld) → start n w ≡ (returned tt, record w { ticks = w.ticks + n })
unfolding start deferring modify ◌>>=◌
start_lem n w =
    rw (loop_lem n (record w { wg = w.wg + 1 }))
      (ap (λ k. (returned tt, record w { wg = k; ticks = w.ticks + n })) (omega arith))

start_and_wait_lem :
    (n : ℕ) (w : SignerWorld)
    → start_and_wait n w ≡ (returned tt, record w { wg = 0; ticks = w.ticks + n })
unfolding start_and_wait wrapping wait modify ◌>>=◌
start_and_wait_lem n w = rw (start_lem n w) refl

-- What the signer leaves: its service was built, it saw all ticks, and no goroutine is waited for.
pub record IsServed (m : SignerMachine) (ticks : ℕ) (w u : SignerWorld) : Type 0 where
  pub service : m.node.Client
  pub ready : SignerWorld
  pub built : signer_service m w ≡ (returned service, ready)
  pub left : u ≡ record ready { wg = 0; ticks = ready.ticks + ticks }

module _ (m : SignerMachine) (ticks : ℕ) (w u : SignerWorld) where
  serves : IsServed m ticks w u → signer_main m ticks w ≡ (returned tt, u)
  unfolding signer_main ◌>>=◌
  serves h = rw (h.built, start_and_wait_lem ticks h.ready, h.left) refl

  served : signer_main m ticks w ≡ (returned tt, u) → IsServed m ticks w u
  unfolding signer_main
  served h =
      let a = bind-Split _ _ w u tt h in
      let rest = sym (start_and_wait_lem ticks a.mid) ∙ a.rest in
      record { service = a.result; ready = a.mid; built = a.first; left = sym (ap (λ p. p.1) rest) }

  -- The signer returns without an error exactly if its configuration can be read and its L2 client
  -- is built; it then has seen every tick before it was told to stop, and waits for nothing.
  pub signer_main_iff : (signer_main m ticks w ≡ (returned tt, u)) ↔ IsServed m ticks w u
  signer_main_iff = (served, serves)

  -- The program `finality-gadget-signer` without further words.
  module _ (cli : Cli) (documented : IsDocumented cli) (program : String) where
    runs_signer :
        run_route
          (λ action words. signer_main m ticks)
          (cli.route SignerAction signer_app (program ∷ []))
        ≡ signer_main m ticks
    unfolding run_route
    runs_signer = rw (documented.alone SignerAction signer_app program) refl

    -- Where urfave/cli calls the action of the app if no word is given, as it documents: the
    -- signer started so returns without an error exactly if its configuration can be read and its
    -- L2 client is built; it then has seen every tick before it was told to stop, and waits for
    -- nothing.
    pub main_signer_iff :
        (main_signer m cli ticks (program ∷ []) w ≡ (returned tt, u)) ↔ IsServed m ticks w u
    unfolding main_signer
    main_signer_iff = (
      λ h. served (
          subst (λ p. p w ≡ (returned tt, u)) runs_signer
            (or_exit-returned (wrap "Application failed.") _ w u tt h)),
      λ h.
          or_exit-kept (wrap "Application failed.") _ w u tt
            (subst (λ p. p w ≡ (returned tt, u)) (sym runs_signer) (serves h)),
    )
