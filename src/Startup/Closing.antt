-- ===== src/Startup/Closing.antt =====
-- `Close` of a consumer controller that was built (finality-gadget/operator/fp/controllers).
use blitz.Base.{◌≡◌, refl, false, Error, arith}
use blitz.Process.{Process, returned, panicked, pure, panic, modify, deferring, ◌>>=◌}
use blitz.Process.Inversion.{bind-Split}
use blitz.Controller.{
  ControllerEnv, ControllerWorld, OrbitConsumerController, close_l2_client, close,
}
use blitz.Startup.{Libraries, World}
use blitz.Startup.Apps.{with_handler, new_orbit_consumer_controller_from}

-- Each controller that is returned has no `l2Client`.
record Bare (m : Process World OrbitConsumerController) : Type 0 where
  bare :
      (s t : World) (o : OrbitConsumerController) → m s ≡ (returned o, t) → o.has_l2_client ≡ false

module _ {A : Type 0} where
  Bare-bind :
      (m : Process World A) (f : A → Process World OrbitConsumerController)
      → ((a : A) → Bare (f a))
      → Bare (m >>= f)
  Bare-bind m f h = record {
    bare = λ s t o q. let p = bind-Split m f s t o q in (h p.result).bare p.mid t o p.rest;
  }

Bare-deferring :
    (cleanup : World → World) (m : Process World OrbitConsumerController)
    → Bare m
    → Bare (deferring cleanup m)
unfolding deferring
Bare-deferring cleanup m h = record {
  bare = λ s t o q. h.bare s (m s).1 o (λ i. ((q i).0, (m s).1));
}

module _ (e : Libraries) where
  with_handler-Bare : Bare (with_handler e)
  unfolding with_handler pure
  with_handler-Bare =
      Bare-bind _ _
        (λ a. Bare-bind _ _ (λ b. Bare-bind _ _ (λ c. record { bare = λ s t o q. ground arith })))

  controller-Bare : (c : e.FpConfig) → Bare (new_orbit_consumer_controller_from e c)
  unfolding new_orbit_consumer_controller_from
  controller-Bare c = Bare-bind _ _ (λ a. Bare-bind _ _ (λ b. Bare-bind _ _ (λ d.
      Bare-bind _ _
        (λ f. Bare-bind _ _ (λ g. Bare-bind _ _ (λ h. Bare-deferring _ _ with_handler-Bare))))))

-- `Close` of any controller that the constructor returns, whatever the libraries answer, panics,
-- before it has stopped the Babylon client or closed the controller inside: nothing external is
-- asked, and the gauges stay as they are.
pub constructed-close :
    (e : Libraries) (c : e.FpConfig) (w t : World) (o : OrbitConsumerController)
    (env : ControllerEnv) (u : ControllerWorld env.Float)
    → new_orbit_consumer_controller_from e c w ≡ (returned o, t)
    → (x : Error) × (close env o u ≡ (panicked x, u))
unfolding close close_l2_client panic modify ◌>>=◌
constructed-close e c w t o env u q =
    let nil = (controller-Bare e c).bare w t o q in rw nil (_, refl)
