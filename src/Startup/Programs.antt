-- ===== src/Startup/Programs.antt =====
-- What the words of the command line make finality-gadget-operator do.
use blitz.Base.{
  ℕ, ◌≡◌, refl, sym, ap, ◌∙◌, ◌↔◌, ◌⊎◌, inl, inr, String, Bool, Option, some, List, [], ◌∷◌, Reply,
  wrap,
}
use mathlib.Core.Path.{subst}
use blitz.Process.{returned, part}
use blitz.Process.Inversion.{or_exit-returned, or_exit-kept, part-returned}
use blitz.Cli.{Cli, IsDocumented, IsPlain, find_command, calls, run_route}
use blitz.App.{AppEnv, AppWorld}
use blitz.Fps.{FpEnv, FinalityProviderResponse}
use blitz.Startup.{World}
use blitz.Startup.Commands.{Machine}
use blitz.Startup.OperatorCommands.{fps_restore}
use blitz.Startup.Restored.{RestoresBy, fps_restore_iff}
use blitz.Startup.Mains.{
  OperatorAction, restore_command, fps_command, operator_app, on_store, perform, operator_main,
}

module _ (cli : Cli) (documented : IsDocumented cli) (m : Machine) (service : AppEnv) (e : FpEnv)
    (query : e.Pk → Reply (Option (FinalityProviderResponse e.Pk)))
    (power_of : e.Pk → ℕ → Reply Bool) (program word key_name text : String) where
  abbrev words : List String
  words = program ∷ word ∷ "restore" ∷ key_name ∷ text ∷ []

  named : (word ≡ "fps") ⊎ (word ≡ "k") → find_command word operator_app.commands ≡ some fps_command
  named (inl fps) = rw fps refl
  named (inr k) = rw k refl

  routed :
      (word ≡ "fps") ⊎ (word ≡ "k")
      → IsPlain key_name
      → IsPlain text
      → cli.route OperatorAction operator_app words
        ≡ calls OperatorAction.restore_action (key_name ∷ text ∷ [])
  routed which plain_key plain_text =
      documented.chooses OperatorAction operator_app program word "restore" (key_name ∷ text ∷ [])
        fps_command restore_command (named which) refl (plain_key, (plain_text, tt))

  module _ (w u : World) (a b : AppWorld service.Pk) (s t : e.Store) where
    ran :
        (word ≡ "fps") ⊎ (word ≡ "k")
        → IsPlain key_name
        → IsPlain text
        → run_route
            (perform cli m service e query power_of)
            (cli.route OperatorAction operator_app words)
          ≡ on_store cli m service e query power_of (fps_restore m e query power_of key_name text)
    unfolding run_route perform
    ran which plain_key plain_text =
        rw
          (
            routed which plain_key plain_text,
            documented.first key_name (text ∷ []),
            documented.second key_name text [],
          )
          refl

    forward :
        on_store cli m service e query power_of
            (fps_restore m e query power_of key_name text)
            (w, a, s)
          ≡ (returned tt, (u, b, t))
        → RestoresBy m e query power_of text w u s t × (a ≡ b)
    forward h =
        let r = part-returned _ _ _ _ _ _ h in
        let states = ap (λ x. (x.0, x.2)) r.1 in
        (
          (fps_restore_iff m e query power_of key_name text w u s t).0
              (r.0 ∙ ap (λ x. (returned tt, x)) states),
          ap (λ x. x.1) r.1,
        )

    backward :
        RestoresBy m e query power_of text w u s t
        → a ≡ b
        → on_store cli m service e query power_of
            (fps_restore m e query power_of key_name text)
            (w, a, s)
          ≡ (returned tt, (u, b, t))
    unfolding part
    backward h e' = rw ((fps_restore_iff m e query power_of key_name text w u s t).1 h, e') refl

    -- Where urfave/cli routes the words of a command line as it documents: the operator started
    -- with `fps restore`, or with the alias `k`, and two words that are no flags succeeds, and
    -- leaves a process and a store, exactly where its provider is built in that process, and the
    -- finality provider of the second word's public key is restored into that store under the
    -- decimal text of the configured chain id, whatever the first word is; nothing of the app is
    -- touched.
    pub operator_main_iff :
        (word ≡ "fps") ⊎ (word ≡ "k")
        → IsPlain key_name
        → IsPlain text
        → (operator_main cli m service e query power_of words (w, a, s) ≡ (returned tt, (u, b, t)))
          ↔ (RestoresBy m e query power_of text w u s t × (a ≡ b))
    unfolding operator_main
    operator_main_iff which plain_key plain_text = (
      λ h. forward (
          subst (λ p. p (w, a, s) ≡ (returned tt, (u, b, t))) (ran which plain_key plain_text)
            (or_exit-returned (wrap "Application failed.") _ (w, a, s) (u, b, t) tt h)),
      λ (h, same).
          or_exit-kept (wrap "Application failed.") _ (w, a, s) (u, b, t) tt
            (subst (λ p. p (w, a, s) ≡ (returned tt, (u, b, t)))
              (sym (ran which plain_key plain_text)) (backward h same)),
    )
