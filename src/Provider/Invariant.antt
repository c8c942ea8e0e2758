-- ===== src/Provider/Invariant.antt =====
-- The induction principle of the provider: what each single write keeps, each cached read keeps.
use blitz.Base.{ℕ, ◌+◌, String, true, Option, none, some, List, [], ◌∷◌, Error, Reply, Comparable}
use blitz.Base.{nat_eq, string_eq}
use blitz.Base.GoMap.{GoMap}
use blitz.Exec.{modify}
use blitz.Exec.Preserves.{Preserves, preserve_rules}
use blitz.Clients.{EthBlock, Block, Clients}
use blitz.Provider.{
  World, CacheField, l2_blocks, finalized_blocks, voters, btc_heights, earliest_heights, powers,
  set_last_finalized, ask, remember_in, read_through, cached, block_by_number, current_time,
  fresh_fps, fetch_all_fp_btc_pub_keys, query_all_fp_btc_pub_keys,
  query_list_of_voted_finality_providers, get_block_height_by_timestamp,
  query_earliest_active_del_btc_height, query_multi_fp_power, query_all_pk_power, with_fps,
}

-- The writes of the program, one by one.
pub record IsInvariant (P : World → Type 0) : Type 0 where
  pub ticks : (w : World) → P w → P (record w { instant = w.instant + 1 })
  pub heights : (h : ℕ) → Preserves P (set_last_finalized h)
  pub fps : (pks : List String) (current : ℕ) → Preserves P (modify (with_fps pks current))
  pub blocks : (k : ℕ) (v : EthBlock) → Preserves P (remember_in l2_blocks k v)
  pub finalized : (k : ℕ) → Preserves P (remember_in finalized_blocks k true)
  pub votes : (k : String) (v : Option (List String)) → Preserves P (remember_in voters k v)
  pub times : (k : String) (v : ℕ) → Preserves P (remember_in btc_heights k v)
  pub earliest : (k : String) (v : ℕ) → Preserves P (remember_in earliest_heights k v)
  pub tables : (k : ℕ) (v : GoMap String ℕ) → Preserves P (remember_in powers k v)

module _ {P : World → Type 0} (inv : IsInvariant P) where
  pub Preserves-ask :
      {A : Type 0} (wrapper : Error → Error) (call : ℕ → Reply A) → Preserves P (ask wrapper call)
  unfolding ask
  Preserves-ask wrapper call = record { after = λ w h. inv.ticks w h }

  Preserves-read_through :
      {K V : Type 0} ⦃e : Comparable K⦄ (field : CacheField K V) (k : K) (wrapper : Error → Error)
      (call : ℕ → Reply V) (hit : Option V)
      → ((v : V) → Preserves P (remember_in field k v))
      → Preserves P (read_through field k wrapper call hit)
  unfolding read_through
  Preserves-read_through field k wrapper call (some c) store = search preserve_rules
  Preserves-read_through field k wrapper call none store = search (preserve_rules, Preserves-ask)

  Preserves-cached :
      {K V : Type 0} ⦃e : Comparable K⦄ (field : CacheField K V) (k : K) (wrapper : Error → Error)
      (call : ℕ → Reply V)
      → ((v : V) → Preserves P (remember_in field k v))
      → Preserves P (cached field k wrapper call)
  unfolding cached
  Preserves-cached field k wrapper call store = search (preserve_rules, Preserves-read_through)

  module _ (c : Clients) where
    pub Preserves-block_by_number : (n : ℕ) → Preserves P (block_by_number c n)
    unfolding block_by_number
    Preserves-block_by_number n = Preserves-cached l2_blocks n _ _ (inv.blocks n)

    pub Preserves-current_time : Preserves P (current_time c)
    unfolding current_time
    Preserves-current_time = record { after = λ w h. inv.ticks w h }

    pub Preserves-fresh_fps : (pks : List String) → Preserves P (fresh_fps c pks)
    unfolding fresh_fps
    Preserves-fresh_fps [] = search preserve_rules
    Preserves-fresh_fps (pk ∷ pks) = search (preserve_rules, Preserves-current_time) depth 8

    Preserves-fetch :
        (fresh : Option (List String)) → Preserves P (fetch_all_fp_btc_pub_keys c fresh)
    unfolding fetch_all_fp_btc_pub_keys
    Preserves-fetch (some pks) = search preserve_rules
    Preserves-fetch none =
        search (preserve_rules, Preserves-ask, Preserves-current_time, inv.fps) depth 12

    pub Preserves-query_all_fp_btc_pub_keys : Preserves P (query_all_fp_btc_pub_keys c)
    unfolding query_all_fp_btc_pub_keys
    Preserves-query_all_fp_btc_pub_keys =
        search (preserve_rules, Preserves-fresh_fps, Preserves-fetch) depth 8

    pub Preserves-query_list_of_voted_finality_providers :
        (b : Block) → Preserves P (query_list_of_voted_finality_providers c b)
    unfolding query_list_of_voted_finality_providers
    Preserves-query_list_of_voted_finality_providers b = Preserves-cached voters _ _ _ (inv.votes _)

    pub Preserves-get_block_height_by_timestamp :
        (b : Block) → Preserves P (get_block_height_by_timestamp c b)
    unfolding get_block_height_by_timestamp
    Preserves-get_block_height_by_timestamp b = Preserves-cached btc_heights _ _ _ (inv.times _)

    pub Preserves-query_earliest_active_del_btc_height :
        (pks : List String) → Preserves P (query_earliest_active_del_btc_height c pks)
    unfolding query_earliest_active_del_btc_height
    Preserves-query_earliest_active_del_btc_height pks =
        Preserves-cached earliest_heights _ _ _ (inv.earliest _)

    pub Preserves-query_multi_fp_power :
        (pks : List String) (h : ℕ) → Preserves P (query_multi_fp_power c pks h)
    unfolding query_multi_fp_power
    Preserves-query_multi_fp_power pks h = Preserves-cached powers _ _ _ (inv.tables _)

    pub Preserves-query_all_pk_power : (b : Block) → Preserves P (query_all_pk_power c b)
    unfolding query_all_pk_power
    Preserves-query_all_pk_power b =
        search
          (
            preserve_rules, Preserves-query_all_fp_btc_pub_keys,
            Preserves-get_block_height_by_timestamp, Preserves-query_multi_fp_power,
          )
          depth 10
