-- ===== src/Concurrent/Alone.antt =====
-- A query of finality-gadget/rpc/provider that nothing interrupts.
use blitz.Base.{
  ℕ, ◌≡◌, refl, ◌∙◌, String, Bool, true, false, Option, none, some, List, Error, Reply, Comparable,
  ◌==◌, nat_eq, string_eq,
}
use blitz.Base.GoMap.{GoMap}
use blitz.Exec
use blitz.Clients.{Block, Clients}
use blitz.Quorum.{total_power}
use blitz.Provider.{
  World, CacheField, ask, cached, read_through, remember_in, fetch_all_fp_btc_pub_keys,
  query_all_fp_btc_pub_keys, block_by_number, query_list_of_voted_finality_providers,
  get_block_height_by_timestamp, query_multi_fp_power, query_all_pk_power, current_time, fresh_fps,
  with_fps,
}
use blitz.Finality.{
  query_block, trimmed, tally, query_is_block_babylon_finalized_from_babylon, store_finalized,
  check_finalized, query_finalized_block_in_babylon_by_number,
}
use blitz.Threads.{run, locked, answer, ◌>>=◌, ◌>>◌}
use blitz.Threads.Runs.{Runs, Runs-answer, Runs-locked, Runs-wrapping, Runs-if, Runs-bind}
use blitz.Concurrent.{
  read_through_steps, cached_steps, read_fps, write_fps, fetch_all_fp_btc_pub_keys_steps,
  query_all_fp_btc_pub_keys_steps, block_by_number_steps, voted_steps, btc_height_steps,
  multi_fp_power_steps, query_all_pk_power_steps, tally_steps, is_block_finalized_steps,
  store_finalized_steps, check_finalized_steps, by_number_steps,
}

module _ {K V : Type 0} ⦃e : Comparable K⦄ (field : CacheField K V) (k : K)
    (wrapper : Error → Error) (call : ℕ → Reply V) where
  read_through-Runs :
      (hit : Option V)
      → Runs (read_through_steps field k wrapper call hit) (read_through field k wrapper call hit)
  unfolding read_through_steps read_through
  read_through-Runs (some v) = Runs-answer v
  read_through-Runs none =
      Runs-bind _ _ _ _ (Runs-locked (ask wrapper call))
        (λ v. Runs-bind _ _ _ _ (Runs-locked (remember_in field k v)) (λ _. Runs-answer v))

  cached-Runs : Runs (cached_steps field k wrapper call) (cached field k wrapper call)
  unfolding cached_steps cached
  cached-Runs = Runs-bind _ _ _ _ (Runs-locked _) (λ hit. read_through-Runs hit)

module _ (c : Clients) where
  -- The sections hold several actions each.
  write-alone :
      (pks : List String) (w : World)
      → run (locked (write_fps c pks) >> answer pks) w
        ≡ Exec.◌>>=◌
            (current_time c)
            (λ current. Exec.◌>>◌ (Exec.modify (with_fps pks current)) (Exec.pure pks))
            w
  unfolding write_fps run ◌>>=◌ current_time Exec.◌>>=◌ Exec.modify Exec.pure
  write-alone pks w = refl

  read-alone :
      (k : Option (List String) → Exec.Exec World (List String)) (w : World)
      → Exec.◌>>=◌ (read_fps c) k w
        ≡ Exec.◌>>=◌ (Exec.gets (λ u. u.all_fps_cache)) (λ pks. Exec.◌>>=◌ (fresh_fps c pks) k) w
  unfolding read_fps Exec.◌>>=◌ Exec.gets
  read-alone k w = refl

  fetch-Runs :
      (found : Option (List String))
      → Runs (fetch_all_fp_btc_pub_keys_steps c found) (fetch_all_fp_btc_pub_keys c found)
  unfolding fetch_all_fp_btc_pub_keys_steps fetch_all_fp_btc_pub_keys
  fetch-Runs (some pks) = Runs-answer pks
  fetch-Runs none =
      Runs-bind _ _ _ _ (Runs-locked _)
        (λ id. Runs-bind _ _ _ _ (Runs-locked _) (λ pks. record { same = λ w. write-alone pks w }))

  fps-Runs : Runs (query_all_fp_btc_pub_keys_steps c) (query_all_fp_btc_pub_keys c)
  unfolding query_all_fp_btc_pub_keys_steps query_all_fp_btc_pub_keys
  fps-Runs = record {
    same = λ w.
        (Runs-bind _ _ _ _ (Runs-locked (read_fps c)) (λ found. fetch-Runs found)).same w
        ∙ read-alone (fetch_all_fp_btc_pub_keys c) w;
  }

  powers-Runs : (b : Block) → Runs (query_all_pk_power_steps c b) (query_all_pk_power c b)
  unfolding query_all_pk_power_steps query_all_pk_power btc_height_steps multi_fp_power_steps
      get_block_height_by_timestamp query_multi_fp_power
  powers-Runs b = Runs-bind _ _ _ _ (Runs-wrapping _ _ _ fps-Runs) (λ pks.
      Runs-bind _ _ _ _ (Runs-wrapping _ _ _ (cached-Runs _ _ _ _))
        (λ h. Runs-wrapping _ _ _ (cached-Runs _ _ _ _)))

  tally-Runs : (b : Block) (m : GoMap String ℕ) → Runs (tally_steps c b m) (tally c b m)
  unfolding tally_steps tally voted_steps query_list_of_voted_finality_providers
  tally-Runs b m =
      Runs-if (total_power m == 0) _ _ _ _ (Runs-answer true)
        (Runs-bind _ _ _ _ (Runs-wrapping _ _ _ (cached-Runs _ _ _ _)) (λ v. Runs-answer _))

  decision-Runs :
      (b : Block)
      → Runs
          (is_block_finalized_steps c b)
          (query_is_block_babylon_finalized_from_babylon c (some b))
  unfolding is_block_finalized_steps query_is_block_babylon_finalized_from_babylon
  decision-Runs b =
      Runs-bind _ _ _ _ (Runs-wrapping _ _ _ (powers-Runs (trimmed b)))
        (λ m. tally-Runs (trimmed b) m)

  store-Runs : (n : ℕ) (f : Bool) → Runs (store_finalized_steps c n f) (store_finalized c n f)
  unfolding store_finalized_steps store_finalized
  store-Runs n true = Runs-bind _ _ _ _ (Runs-locked _) (λ _. Runs-answer true)
  store-Runs n false = Runs-answer false

  check-Runs :
      (n : ℕ) (hit : Option Bool) → Runs (check_finalized_steps c n hit) (check_finalized c n hit)
  unfolding check_finalized_steps check_finalized block_by_number_steps block_by_number
  check-Runs n (some v) = Runs-answer true
  check-Runs n none = Runs-bind _ _ _ _ (Runs-wrapping _ _ _ (cached-Runs _ _ _ _)) (λ blk.
      Runs-bind _ _ _ _ (Runs-wrapping _ _ _ (decision-Runs (query_block blk)))
        (λ f. store-Runs n f))

  pub by_number-Runs :
      (n : ℕ) → Runs (by_number_steps c n) (query_finalized_block_in_babylon_by_number c n)
  unfolding by_number_steps query_finalized_block_in_babylon_by_number
  by_number-Runs n = Runs-bind _ _ _ _ (Runs-locked _) (λ hit. check-Runs n hit)

-- With nobody else running, the sections of a query come to what the query does as a whole.
pub by_number-alone :
    (c : Clients) (n : ℕ) (w : World)
    → run (by_number_steps c n) w ≡ query_finalized_block_in_babylon_by_number c n w
by_number-alone c n w = (by_number-Runs c n).same w
