-- ===== src/Concurrent/CacheReads.antt =====
-- A read through a cache of finality-gadget/rpc/provider, whatever other goroutines do in between.
use blitz.Base.{
  ℕ, ◌≡◌, refl, Option, none, some, Error, err, Reply, value, fails, received, map_err, nat_eq,
  string_eq, Comparable,
}
use blitz.Base.GoMap.{lookup}
use blitz.Exec.Preserves.{Preserves}
use blitz.Provider.{World, CacheField, remember_in}
use blitz.Finality.Reference.{Snapshot}
use blitz.Finality.Agreement.{Agreeing, Implements-ask, Implements-remember}
use blitz.Threads.Guarded.{Gives, Gives-answer, Gives-locked, Gives-bind, Gives-then, Gives-gets}
use blitz.Concurrent.{read_through_steps, cached_steps}

module _ (s : Snapshot) {K V : Type 0} ⦃e : Comparable K⦄ (field : CacheField K V) (k : K)
    (wrapper : Error → Error) where
  Gives-read_through :
      (call : ℕ → Reply V) (r : Reply V) (hit : Option V)
      → ((t : ℕ) → call t ≡ r)
      → ((v : V) → r ≡ value v → Preserves (Agreeing s) (remember_in field k v))
      → ((v : V) → hit ≡ some v → r ≡ value v)
      → Gives
          (Agreeing s)
          (read_through_steps field k wrapper call hit)
          (map_err wrapper (received r))
  unfolding read_through_steps
  Gives-read_through call r (some v) same stores hits = rw (hits v refl) (Gives-answer v)
  Gives-read_through call (value v) none same stores hits =
      Gives-then _ v _ _ (Gives-locked _ _ (Implements-ask s wrapper call (value v) same)) (
        Gives-then _ tt _ _ (Gives-locked _ _ (Implements-remember s field k v (stores v refl)))
          (Gives-answer v))
  Gives-read_through call (fails m) none same stores hits =
      Gives-bind _ (err (wrapper (Error.client m))) _ (λ _. err (wrapper (Error.client m)))
        (Gives-locked _ _ (Implements-ask s wrapper call (fails m) same)) (λ a p. cc)

  -- With a true answer for every hit, and a place for every answer, the cache is not seen.
  pub Gives-cached :
      (call : ℕ → Reply V) (r : Reply V)
      → ((t : ℕ) → call t ≡ r)
      → ((v : V) → r ≡ value v → Preserves (Agreeing s) (remember_in field k v))
      → ((w : World)
          → Agreeing s w
          → (v : V) → lookup k (field.read w.provider) ≡ some v
          → r ≡ value v)
      → Gives (Agreeing s) (cached_steps field k wrapper call) (map_err wrapper (received r))
  unfolding cached_steps
  Gives-cached call r same stores hits =
      Gives-gets _ _ _
        (λ w h. Gives-read_through call r (lookup k (field.read w.provider)) same stores (hits w h))
