-- ===== src/Concurrent/Listing.antt =====
-- The sections of the query of a block of finality-gadget/rpc/provider: 18 at most, each of which is
-- a read, the passing of time, or one of the writes.
use blitz.Base.{
  ℕ, suc, ◌+◌, String, Bool, true, false, Option, none, some, List, Error, Reply, Comparable, ◌==◌,
  nat_eq, string_eq,
}
use blitz.Base.GoMap.{GoMap}
use blitz.Exec.{gets}
use blitz.Clients.{EthBlock, Block, Clients}
use blitz.Threads.{locked}
use blitz.Quorum.{total_power}
use blitz.Provider.{
  l2_blocks, finalized_blocks, voters, btc_heights, powers, World, CacheField, ask, remember_in,
}
use blitz.Finality.{query_block, trimmed}
use blitz.Threads.Sections.{
  Sections, Sections-answer, Sections-locked, Sections-wrapping, Sections-if, Sections-bind,
}
use blitz.Concurrent.{
  read_through_steps, cached_steps, read_fps, write_fps, fetch_all_fp_btc_pub_keys_steps,
  query_all_fp_btc_pub_keys_steps, block_by_number_steps, voted_steps, btc_height_steps,
  multi_fp_power_steps, query_all_pk_power_steps, tally_steps, is_block_finalized_steps,
  store_finalized_steps, check_finalized_steps, by_number_steps,
}

-- What each section of the query of a block comes to, one by one.
pub record Covers (T : (World → World) → Type 0) : Type 0 where
  pub stays : T (λ w. w)
  pub ticks : T (λ w. record w { instant = w.instant + 1 })
  pub reads : (c : Clients) → T (λ w. (read_fps c w).1)
  pub writes : (c : Clients) (pks : List String) → T (λ w. (write_fps c pks w).1)
  pub blocks : (k : ℕ) (v : EthBlock) → T (λ w. (remember_in l2_blocks k v w).1)
  pub finalized : (k : ℕ) → T (λ w. (remember_in finalized_blocks k true w).1)
  pub votes : (k : String) (v : Option (List String)) → T (λ w. (remember_in voters k v w).1)
  pub times : (k : String) (v : ℕ) → T (λ w. (remember_in btc_heights k v w).1)
  pub tables : (k : ℕ) (v : GoMap String ℕ) → T (λ w. (remember_in powers k v w).1)

pub Covers-weaken :
    {T U : (World → World) → Type 0} → ((g : World → World) → T g → U g) → Covers T → Covers U
Covers-weaken le covers = record {
  stays = le _ covers.stays;
  ticks = le _ covers.ticks;
  reads = λ c. le _ (covers.reads c);
  writes = λ c pks. le _ (covers.writes c pks);
  blocks = λ k v. le _ (covers.blocks k v);
  finalized = λ k. le _ (covers.finalized k);
  votes = λ k v. le _ (covers.votes k v);
  times = λ k v. le _ (covers.times k v);
  tables = λ k v. le _ (covers.tables k v);
}

module _ {T : (World → World) → Type 0} (covers : Covers T) where
  pub Sections-ask :
      {A : Type 0} {n : ℕ} (wrapper : Error → Error) (call : ℕ → Reply A)
      → Sections T (suc n) (locked (ask wrapper call))
  unfolding ask
  Sections-ask wrapper call = Sections-locked _ covers.ticks

  pub Sections-gets : {A : Type 0} {n : ℕ} (f : World → A) → Sections T (suc n) (locked (gets f))
  unfolding gets
  Sections-gets f = Sections-locked _ covers.stays

  module _ {K V : Type 0} ⦃e : Comparable K⦄ (field : CacheField K V) (k : K)
      (stored : (v : V) → T (λ w. (remember_in field k v w).1)) (wrapper : Error → Error)
      (call : ℕ → Reply V) where
    read_through-Sections :
        (hit : Option V) → Sections T 2 (read_through_steps field k wrapper call hit)
    unfolding read_through_steps
    read_through-Sections (some v) = Sections-answer v
    read_through-Sections none =
        Sections-bind 1 1 _ _ (Sections-ask wrapper call)
          (λ v. Sections-bind 1 0 _ _ (Sections-locked _ (stored v)) (λ _. Sections-answer v))

    cached-Sections : Sections T 3 (cached_steps field k wrapper call)
    unfolding cached_steps
    cached-Sections = Sections-bind 1 2 _ _ (Sections-gets _) read_through-Sections

  module _ (c : Clients) where
    fetch-Sections :
        (found : Option (List String)) → Sections T 3 (fetch_all_fp_btc_pub_keys_steps c found)
    unfolding fetch_all_fp_btc_pub_keys_steps
    fetch-Sections (some pks) = Sections-answer pks
    fetch-Sections none = Sections-bind 1 2 _ _ (Sections-ask _ _) (λ id.
        Sections-bind 1 1 _ _ (Sections-ask _ _) (λ pks.
          Sections-bind 1 0 _ _ (Sections-locked _ (covers.writes c pks))
            (λ _. Sections-answer pks)))

    powers-Sections : (b : Block) → Sections T 10 (query_all_pk_power_steps c b)
    unfolding query_all_pk_power_steps query_all_fp_btc_pub_keys_steps btc_height_steps
        multi_fp_power_steps
    powers-Sections b =
        Sections-bind 4 6 _ _
          (Sections-wrapping _ _
            (Sections-bind 1 3 _ _ (Sections-locked _ (covers.reads c)) fetch-Sections))
          (λ pks.
            Sections-bind 3 3 _ _ (Sections-wrapping _ _ (cached-Sections _ _ (covers.times _) _ _))
              (λ h. Sections-wrapping _ _ (cached-Sections _ _ (covers.tables _) _ _)))

    tally-Sections : (b : Block) (m : GoMap String ℕ) → Sections T 3 (tally_steps c b m)
    unfolding tally_steps voted_steps
    tally-Sections b m = Sections-if (total_power m == 0) _ _ (Sections-answer true) (
        Sections-bind 3 0 _ _ (Sections-wrapping _ _ (cached-Sections _ _ (covers.votes _) _ _))
          (λ v. Sections-answer _))

    decision-Sections : (b : Block) → Sections T 13 (is_block_finalized_steps c b)
    unfolding is_block_finalized_steps
    decision-Sections b =
        Sections-bind 10 3 _ _ (Sections-wrapping _ _ (powers-Sections (trimmed b)))
          (λ m. tally-Sections (trimmed b) m)

    store-Sections : (n : ℕ) (f : Bool) → Sections T 1 (store_finalized_steps c n f)
    unfolding store_finalized_steps
    store-Sections n true =
        Sections-bind 1 0 _ _ (Sections-locked _ (covers.finalized n)) (λ _. Sections-answer true)
    store-Sections n false = Sections-answer false

    check-Sections : (n : ℕ) (hit : Option Bool) → Sections T 17 (check_finalized_steps c n hit)
    unfolding check_finalized_steps block_by_number_steps
    check-Sections n (some v) = Sections-answer true
    check-Sections n none =
        Sections-bind 3 14 _ _ (Sections-wrapping _ _ (cached-Sections _ _ (covers.blocks _) _ _))
          (λ blk.
            Sections-bind 13 1 _ _ (Sections-wrapping _ _ (decision-Sections (query_block blk)))
              (λ f. store-Sections n f))

    pub by_number-Sections : (n : ℕ) → Sections T 18 (by_number_steps c n)
    unfolding by_number_steps
    by_number-Sections n = Sections-bind 1 17 _ _ (Sections-gets _) (λ hit. check-Sections n hit)
