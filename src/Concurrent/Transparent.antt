-- ===== src/Concurrent/Transparent.antt =====
-- The caches are not seen: on chains whose answers do not change, the cached query of a block
-- returns what the reference decision says.
use blitz.Base.{
  ℕ, ◌≡◌, refl, if◌then◌else◌, String, Bool, true, false, Option, none, some, List, [], ◌∷◌, ok,
  wrap, wrapf, received, map_err, and_then, nat_eq, string_eq, ◌==◌, int64, arith,
}
use blitz.Base.GoMap.{GoMap}
use blitz.Exec.{pure, gets, ◌>>=◌}
use blitz.Exec.Implements.{Implements, Implements-through, Returns}
use blitz.Clients.{EthBlock, Clients}
use blitz.Provider.{
  World, l2_blocks, finalized_blocks, voters, btc_heights, powers, current_time, fresh_fps,
}
use blitz.Quorum.{total_power}
use blitz.Finality.{query_block, trimmed, query_finalized_block_in_babylon_by_number}
use blitz.Finality.Reference.{
  Snapshot, IsStable, DistinctHashes, reference_fps, reference_powers, reference_tally,
  reference_block, reference,
}
use blitz.Finality.Agreement.{
  Agreeing, BlockIsTrue, FpsAreTrue, Implements-ask, Implements-modify, Implements-remember,
}
use blitz.Finality.Stores.{
  stores_block, stores_height, stores_voters, stores_powers, stores_finalized, stores_fps,
}
use blitz.Threads.Runs.{Runs-Implements}
use blitz.Threads.Guarded.{
  Gives, Gives-answer, Gives-locked, Gives-wrapping, Gives-bind, Gives-then, Gives-gets,
  Gives-through, Gives-if,
}
use blitz.Concurrent.{
  read_fps, write_fps, fetch_all_fp_btc_pub_keys_steps, query_all_fp_btc_pub_keys_steps,
  block_by_number_steps, voted_steps, btc_height_steps, multi_fp_power_steps,
  query_all_pk_power_steps, tally_steps, is_block_finalized_steps, store_finalized_steps,
  check_finalized_steps, by_number_steps,
}
use blitz.Base.Replies.{without_wrappers, without_wrapper, and_then-ok, received-ok}
use blitz.Concurrent.CacheReads.{Gives-cached}
use blitz.Concurrent.Alone.{by_number-Runs}

module _ (s : Snapshot) where
  module _ (c : Clients) (stable : IsStable c s) where
    -- What `queryAllFpBtcPubKeys` may find in its cache.
    abbrev IsFresh : Option (List String) → Type 0
    IsFresh none = Unit
    IsFresh (some pks) = reference_fps s ≡ ok pks

    if-IsFresh :
        (b : Bool) (pks : List String)
        → reference_fps s ≡ ok pks
        → IsFresh (if b then some pks else none)
    if-IsFresh true pks e = e
    if-IsFresh false pks e = tt

    fresh_fps-IsFresh :
        (pks : List String) (w : World)
        → FpsAreTrue s pks
        → Agreeing s w
        → Returns IsFresh (fresh_fps c pks w).0 × Agreeing s (fresh_fps c pks w).1
    unfolding fresh_fps pure gets current_time ◌>>=◌
    fresh_fps-IsFresh [] w t h = (tt, h)
    fresh_fps-IsFresh (pk ∷ pks) w t h = (if-IsFresh _ (pk ∷ pks) t, h)

    Implements-write :
        (pks : List String)
        → reference_fps s ≡ ok pks
        → Implements (Agreeing s) (write_fps c pks) (ok tt)
    unfolding write_fps current_time
    Implements-write pks e =
        Implements-through (λ _. Unit) _ _ _ (λ w h. (tt, h))
          (λ current _. Implements-modify s _ (stores_fps s pks current e))

    Gives-fetch :
        (found : Option (List String))
        → IsFresh found
        → Gives (Agreeing s) (fetch_all_fp_btc_pub_keys_steps c found) (reference_fps s)
    unfolding fetch_all_fp_btc_pub_keys_steps
    Gives-fetch (some fresh) known = rw known (Gives-answer fresh)
    Gives-fetch none known = rw (← without_wrappers s.consumer_id s.fp_pks) (
        Gives-bind _ _ _ (λ id. and_then (map_err (λ e. e) (received (s.fp_pks id))) ok)
          (Gives-locked _ _ (Implements-ask s _ _ s.consumer_id stable.consumer_id))
          λ id at_id.
            Gives-bind _ _ _ ok
              (Gives-locked _ _ (Implements-ask s _ _ (s.fp_pks id) (λ t. stable.fp_pks t id)))
              λ pks found.
                Gives-then _ tt _ _ (Gives-locked _ _ (Implements-write pks (ground arith)))
                  (Gives-answer pks))

    Gives-fps : Gives (Agreeing s) (query_all_fp_btc_pub_keys_steps c) (reference_fps s)
    unfolding query_all_fp_btc_pub_keys_steps read_fps
    Gives-fps =
        Gives-through IsFresh (read_fps c) _ _ (λ w h. fresh_fps-IsFresh w.all_fps_cache w h.fps h)
          Gives-fetch

    Gives-block :
        (n : ℕ)
        → Gives
            (Agreeing s)
            (block_by_number_steps c n)
            (map_err (wrapf "QueryBlock failed: %v" n) (received (s.block_by_number (int64 n))))
    unfolding block_by_number_steps
    Gives-block n =
        Gives-cached s l2_blocks n _ _ (s.block_by_number (int64 n))
          (λ t. stable.block_by_number t (int64 n)) (stores_block s n) (λ w h. h.blocks n)

    Gives-power :
        (pks : List String) (height : ℕ)
        → reference_fps s ≡ ok pks
        → Gives
            (Agreeing s)
            (multi_fp_power_steps c pks height)
            (map_err (wrap "QueryMultiFpPower") (received (s.powers pks height)))
    unfolding multi_fp_power_steps
    Gives-power pks height known =
        Gives-cached s powers height _ _ (s.powers pks height) (λ t. stable.powers t pks height)
          (λ v e.
            stores_powers s height v
              (λ pks' known'. let same : pks' ≡ pks = ground arith in rw same e))
          (λ w h v found. h.tables height v found pks known)

    module _ (distinct : DistinctHashes s) (n : ℕ) (b : EthBlock)
        (on_chain : BlockIsTrue s n b) where
      Gives-height :
          Gives
            (Agreeing s)
            (btc_height_steps c (trimmed (query_block b)))
            (map_err (wrap "GetBlockHeightByTimestamp") (received (s.btc_height b.time)))
      unfolding btc_height_steps
      Gives-height =
          Gives-cached s btc_heights _ _ _ (s.btc_height b.time) (λ t. stable.btc_height t b.time)
            (λ v e.
              stores_height s _ v (λ m a there same. rw (distinct m n a b there on_chain same) e))
            (λ w h v found. h.heights _ v found n b on_chain refl)

      Gives-voters :
          Gives
            (Agreeing s)
            (voted_steps c (trimmed (query_block b)))
            (map_err (λ e. e) (received (s.voted (trimmed (query_block b)))))
      unfolding voted_steps
      Gives-voters =
          Gives-cached s voters _ _ _ (s.voted (trimmed (query_block b)))
            (λ t. stable.voted t (trimmed (query_block b)))
            (λ v e.
              stores_voters s _ v (λ m a there same. rw (distinct m n a b there on_chain same) e))
            (λ w h v found. h.votes _ v found n b on_chain refl)

      Gives-powers :
          Gives
            (Agreeing s)
            (query_all_pk_power_steps c (trimmed (query_block b)))
            (reference_powers s (trimmed (query_block b)))
      unfolding query_all_pk_power_steps
      Gives-powers = Gives-bind _ _ _ _ (Gives-wrapping _ _ _ Gives-fps) λ pks known.
          Gives-bind _ _ _ _ (Gives-wrapping _ _ _ Gives-height)
            λ height _. Gives-wrapping _ _ _ (Gives-power pks height (without_wrapper _ _ known))

      Gives-tally :
          (m : GoMap String ℕ)
          → Gives
              (Agreeing s)
              (tally_steps c (trimmed (query_block b)) m)
              (reference_tally s (trimmed (query_block b)) m)
      unfolding tally_steps
      Gives-tally m =
          Gives-if (total_power m == 0) _ _ _ _ (Gives-answer true)
            (Gives-bind _ _ _ _ (Gives-wrapping _ _ _ Gives-voters) (λ v _. Gives-answer _))

      Gives-query_is_block :
          Gives
            (Agreeing s)
            (is_block_finalized_steps c (query_block b))
            (reference_block s (query_block b))
      unfolding is_block_finalized_steps
      Gives-query_is_block =
          Gives-bind _ _ _ _ (Gives-wrapping _ _ _ Gives-powers) (λ m _. Gives-tally m)

    Gives-store_finalized :
        (n : ℕ) (f : Bool)
        → reference s n ≡ ok f
        → Gives (Agreeing s) (store_finalized_steps c n f) (ok f)
    unfolding store_finalized_steps
    Gives-store_finalized n true e =
        Gives-then _ tt _ _
          (Gives-locked _ _
            (Implements-remember s finalized_blocks n true (stores_finalized s n e)))
          (Gives-answer true)
    Gives-store_finalized n false e = Gives-answer false

    module _ (distinct : DistinctHashes s) (n : ℕ) where
      Gives-check :
          (hit : Option Bool)
          → ((v : Bool) → hit ≡ some v → reference s n ≡ ok true)
          → Gives (Agreeing s) (check_finalized_steps c n hit) (reference s n)
      unfolding check_finalized_steps
      Gives-check (some v) hits = rw (hits v refl) (Gives-answer true)
      Gives-check none hits =
          unfold reference in
          Gives-bind _ _ _ _ (Gives-wrapping _ _ _ (Gives-block n)) λ blk found.
            let on_chain = received-ok _ (without_wrapper _ _ (without_wrapper _ _ found)) in
            rw
              (← and_then-ok (
                map_err (wrapf "QueryIsBlockBabylonFinalizedFromBabylon failed: %v" n)
                  (reference_block s (query_block blk))))
              (Gives-bind _ _ _ ok
                (Gives-wrapping _ _ _ (Gives-query_is_block distinct n blk on_chain))
                λ f decided. Gives-store_finalized n f (rw (found, decided) refl))

      -- On stable chains, and from caches that agree with them, the query of a block returns what
      -- the reference decision returns, errors included, and leaves caches that agree.
      pub Gives-by_number : Gives (Agreeing s) (by_number_steps c n) (reference s n)
      unfolding by_number_steps
      Gives-by_number = Gives-gets _ _ _ (λ w h. Gives-check _ (λ v found. h.finalized n v found))

      pub Implements-by_number :
          Implements (Agreeing s) (query_finalized_block_in_babylon_by_number c n) (reference s n)
      Implements-by_number = Runs-Implements _ _ _ (by_number-Runs c n) Gives-by_number
