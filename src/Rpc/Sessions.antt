-- ===== src/Rpc/Sessions.antt =====
-- Whatever finality-gadget/rpc/rpc.go is asked, in any order.
use blitz.Base.{ℕ, ◌+◌, Error, Reply, ◌≤◌, ◌≡◌, Bool, ℤ, int64, integer_eq, arith}
use blitz.Exec.Preserves.{
  Preserves, Preserves-if, Preserves-bind, Preserves-wrapping, Preserves-pure,
}
use blitz.Clients.{Clients}
use blitz.Provider.{World, ask, new_finalized_state_provider}
use blitz.Provider.Bounds.{IsBounded, IsBounded-IsInvariant}
use blitz.Finality.{query_finalized_block_in_babylon, query_finalized_block_in_babylon_by_number}
use blitz.Finality.Growth.{AtLeast-IsInvariant}
use blitz.Finality.Invariant.{Preserves-query_finalized_block, Preserves-query_searching}
use blitz.Finality.Reference.{Snapshot, IsStable, DistinctHashes, reference}
use blitz.Finality.Agreement.{Agrees, Preserves-set}
use blitz.Concurrent.Transparent.{Implements-by_number}
use blitz.Finality.Soundness.{by_number-reference, new_finalized_state_provider-Agrees}
use blitz.Rpc.{EthRpc, init, call_by_number, get_block_by_number}

module _ (c : Clients) (rpc : EthRpc) where
  -- What the server does, one after the other: `init` at the start, and the requests.
  pub data Serves (w : World) : World → Type 0 where
    idle : Serves w w
    started : (u : World) → Serves w u → Serves w (init c rpc u).1
    requested :
        (u : World) (number : ℤ) (full_tx : Bool)
        → Serves w u
        → Serves w (get_block_by_number c rpc number full_tx u).1

  -- A condition that the query keeps, and that time does not touch, holds throughout.
  module _ (P : World → Type 0)
      (ticks : (w : World) → P w → P (record w { instant = w.instant + 1 }))
      (query : Preserves P (query_finalized_block_in_babylon c)) where
    asks :
        {A : Type 0} (wrapper : Error → Error) (call : ℕ → Reply A) → Preserves P (ask wrapper call)
    unfolding ask
    asks wrapper call = record { after = λ w h. ticks w h }

    Preserves-init : Preserves P (init c rpc)
    unfolding init
    Preserves-init = Preserves-bind _ _ (Preserves-wrapping _ _ query) (λ _. Preserves-pure tt)

    Preserves-call :
        (number : ℤ) (full_tx : Bool) → Preserves P (call_by_number c rpc number full_tx)
    unfolding call_by_number
    Preserves-call number full_tx = asks _ _

    Preserves-get :
        (number : ℤ) (full_tx : Bool) → Preserves P (get_block_by_number c rpc number full_tx)
    unfolding get_block_by_number
    Preserves-get number full_tx =
        Preserves-if _ _ _
          (Preserves-bind _ _ (Preserves-wrapping _ _ query)
            (λ n. Preserves-call (int64 n) full_tx))
          (Preserves-call number full_tx)

    served : (w u : World) → Serves w u → P w → P u
    served w u idle h = h
    served w u (started v before) h = Preserves-init.after v (served w v before h)
    served w u (requested v number full_tx before) h =
        (Preserves-get number full_tx).after v (served w v before h)

  -- However many requests are served, and whatever the clients answer, from caches within 4097
  -- entries, the last finalized height never falls, and the caches stay within them.
  pub Serves-grows :
      (w u : World)
      → Serves w u
      → IsBounded w.provider
      → (w.last_finalized_height ≤ u.last_finalized_height) × IsBounded u.provider
  Serves-grows w u s h = (
    served (λ u. w.last_finalized_height ≤ u.last_finalized_height) (λ w h. h)
        (Preserves-query_finalized_block (AtLeast-IsInvariant w.last_finalized_height) c) w u s
        (omega arith),
    served (λ u. IsBounded u.provider) (λ w h. h)
        (Preserves-query_finalized_block IsBounded-IsInvariant c) w u s h,
  )

  -- On a stable chain with distinct block hashes, caches that agree with it still do after any
  -- requests.
  pub Serves-Agrees :
      (s : Snapshot) (w u : World)
      → IsStable c s
      → DistinctHashes s
      → Serves w u
      → Agrees s w.provider
      → Agrees s u.provider
  Serves-Agrees s w u stable distinct session =
      served (λ u. Agrees s u.provider) (λ w h. h)
        (Preserves-query_searching c (λ w h. h) (Preserves-set s)
          (λ h. record { after = (Implements-by_number s c stable distinct h).keeps }))
        w u session

  -- On a stable chain with distinct block hashes, however many requests a new provider has served,
  -- its caches agree with the chain, and the cached query of a block then returns exactly what the
  -- decision without caches returns.
  pub Serves-reference :
      (s : Snapshot) (start : ℕ) (u : World) (n : ℕ)
      → IsStable c s
      → DistinctHashes s
      → Serves (record { provider = new_finalized_state_provider; instant = start }) u
      → Agrees s u.provider × ((query_finalized_block_in_babylon_by_number c n u).0 ≡ reference s n)
  Serves-reference s start u n stable distinct session =
      let agrees =
        Serves-Agrees s _ u stable distinct session (new_finalized_state_provider-Agrees s) in
      (agrees, (by_number-reference c s u n stable distinct agrees).0)
