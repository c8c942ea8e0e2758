-- ===== src/Startup/Provided.antt =====
-- Which finality provider the command of finality-gadget-operator starts.
use blitz.Base.{◌≡◌, []}
use blitz.Process.{Process, wrapping, part}
use blitz.Process.Keeps.{Keeps, Keeps-wrapping, Keeps-modify}
use blitz.Process.Leads.{Leads, Leads-bind, Leads-gets, Leads-deferring}
use blitz.App.{AppEnv, AppWorld}
use blitz.App.Choice.{Chosen, nothing, start-Chosen}
use blitz.Startup.{World}
use blitz.Startup.Apps.{FinalityProviderApp}
use blitz.Startup.Commands.{in_process, Machine}
use blitz.Startup.OperatorCommands.{app_config, start_app, provide, finality_provider}

module _ (m : Machine) (service : AppEnv) where
  abbrev None : World × AppWorld service.Pk → Type 0
  None s = s.1.started ≡ []

  -- What was started is what the configuration chooses.
  abbrev pub IsChosen : World × AppWorld service.Pk → Type 0
  IsChosen s = Chosen service s.0.config.btc_pk s.1.started

  None-IsChosen : (s : World × AppWorld service.Pk) → None s → IsChosen s
  None-IsChosen s h = rw h nothing

  -- What runs in the process alone starts nothing.
  idle : {A : Type 0} (p : Process World A) → Keeps (Unit {0}) None (in_process p)
  unfolding part
  idle p = record { kept = λ s h. h; exits = λ s e q. tt }

  start_app-IsChosen :
      (app : FinalityProviderApp m.libraries) (s : World × AppWorld service.Pk)
      → None s
      → IsChosen (start_app m service app s.0.config.btc_pk s).1
  unfolding start_app wrapping part
  start_app-IsChosen app s h = start-Chosen service (app_config m app) s.0.config.btc_pk s.1 h

  provide-IsChosen : Leads None IsChosen (provide m service)
  unfolding provide
  provide-IsChosen =
      Leads-bind _ _ _ _ _ (Keeps-wrapping _ _ _ _ (idle _))
        (λ app. Leads-gets _ _ _ _ (λ s h. start_app-IsChosen app s h)) None-IsChosen

  finality_provider-Leads : Leads None IsChosen (finality_provider m service)
  unfolding finality_provider
  finality_provider-Leads =
      Leads-bind _ _ _ _ _ (idle _)
        (λ u.
          Leads-bind _ _ _ _ _ (idle _)
            (λ addr.
              Leads-bind _ _ (Unit {0}) _ _ (Keeps-modify _ _ _ (λ s h. h))
                (λ v. Leads-deferring _ _ _ _ provide-IsChosen (λ s h. h)) None-IsChosen)
            None-IsChosen)
        None-IsChosen

  -- With nothing started before, the command `finalityProvider` starts at most one finality
  -- provider, however it ends: that of the key in the configuration it ends with, or without a key
  -- there the only one that is stored.
  pub finality_provider-IsChosen :
      (w : World) (a : AppWorld service.Pk)
      → a.started ≡ []
      → IsChosen (finality_provider m service (w, a)).1
  finality_provider-IsChosen w a none_yet = finality_provider-Leads.led (w, a) none_yet
