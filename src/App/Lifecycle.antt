-- ===== src/App/Lifecycle.antt =====
-- What finality-gadget/operator/fp/app.go starts, and that it stops once.
use blitz.Base.{
  ◌+◌, ◌≤◌, ◌≡◌, ◌≢◌, refl, ◌∙◌, inl, inr, true, false, Result, ok, err, Reply, value, fails,
  received, map_err, string_eq, arith, Reply-cases, new,
}
use blitz.Exec.{pure, raise, gets, modify, ◌>>=◌}
use blitz.App.{AppEnv, AppWorld, ask, close_quit, wait, stop_all, stop_impl}

module _ (e : AppEnv) where
  -- The channel is closed exactly by the stop that `stopOnce` lets through.
  abbrev pub IsGuarded : AppWorld e.Pk → Type 0
  IsGuarded w = w.quit_closed ≡ w.stop_once

  -- What the first stop leaves.
  pub record IsStopped (w : AppWorld e.Pk) (r : Result (Unit {0})) (u : AppWorld e.Pk)
      : Type 0 where
    pub calm : r ≢ err (new "close of closed channel")
    pub once : u.stop_once ≡ true
    pub quit : u.quit_closed ≡ true
    pub joined : u.wg ≡ 0
    pub same : u.started ≡ w.started
    pub stopped : u.stops ≡ w.stops + 1
    pub closed : u.closes ≤ w.closes + 1

  stop_impl-idle : (w : AppWorld e.Pk) → w.stop_once ≡ true → stop_impl e w ≡ (ok tt, w)
  unfolding stop_impl ◌>>=◌ gets pure
  stop_impl-idle w done = rw done refl

  calm :
      (r : Reply (Unit {0})) → map_err (λ x. x) (received r) ≢ err (new "close of closed channel")
  calm (value a) h = ground arith
  calm (fails m) h = ground arith

  stop_all-IsStopped :
      (w : AppWorld e.Pk)
      → w.quit_closed ≡ false
      → w.stop_once ≡ true
      → IsStopped w (stop_all e w).0 (stop_all e w).1
  unfolding stop_all close_quit wait ask ◌>>=◌ gets modify pure raise
  stop_all-IsStopped w open_yet done = elim (Reply-cases (e.stop w.instant)) [
    | inl (a, q) ↦
        rw (open_yet, q)
          (record {
            calm = calm (e.close (w.instant + 1));
            once = done;
            quit = refl;
            joined = refl;
            same = refl;
            stopped = refl;
            closed = omega arith;
          })
    | inr (m, q) ↦
        rw (open_yet, q)
          (record {
            calm = calm (fails m);
            once = done;
            quit = refl;
            joined = refl;
            same = refl;
            stopped = refl;
            closed = omega arith;
          })
  ]

  first_stop :
      (w : AppWorld e.Pk)
      → IsGuarded w
      → w.stop_once ≡ false
      → IsStopped w (stop_impl e w).0 (stop_impl e w).1
  unfolding stop_impl ◌>>=◌ gets modify pure
  first_stop w guarded fresh =
      let k = stop_all-IsStopped (record w { stop_once = true }) (guarded ∙ fresh) refl in
      rw fresh (record {
        calm = k.calm;
        once = k.once;
        quit = k.quit;
        joined = k.joined;
        same = k.same;
        stopped = k.stopped;
        closed = k.closed;
      })

  -- From a state in which the channel is closed exactly if `stopOnce` is used up, the first stop
  -- does not close a closed channel; it joins the goroutines, starts nothing, calls `Stop` once
  -- and `Close` at most once. A stop after it returns no error and changes nothing.
  pub stop_impl-IsStopped :
      (w : AppWorld e.Pk)
      → IsGuarded w
      → w.stop_once ≡ false
      → IsStopped w (stop_impl e w).0 (stop_impl e w).1
        × (stop_impl e (stop_impl e w).1 ≡ (ok tt, (stop_impl e w).1))
  stop_impl-IsStopped w guarded fresh =
      let first = first_stop w guarded fresh in (first, stop_impl-idle _ first.once)
