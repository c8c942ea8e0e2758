-- ===== src/Provider/Bounds.antt =====
-- No cache of the provider outgrows `CacheMapCount + 1` entries.
use blitz.Base.{
  ℕ, ◌+◌, ◌≤◌, true, [], arith, length, ltb, Comparable, Bool-cases, inl, inr, nat_eq, string_eq,
}
use blitz.Base.GoMap.{GoMap, length-insert-le}
use blitz.Exec.{modify}
use blitz.Provider.{
  FinalizedStateProvider, set_last_finalized, remember, remember_in, cache_map_count,
}
use blitz.Provider.Invariant.{IsInvariant}

abbrev pub max_entries : ℕ
max_entries = cache_map_count + 1

pub record IsBounded (p : FinalizedStateProvider) : Type 0 where
  pub voters : length p.voted_fp_pks_cache ≤ max_entries
  pub finalized : length p.finalized_cache ≤ max_entries
  pub btc_heights : length p.btcblock_height_cache ≤ max_entries
  pub earliest : length p.earliest_active_del_btc_height_cache ≤ max_entries
  pub powers : length p.multi_fp_power_cache ≤ max_entries
  pub blocks : length p.l2_block_cache ≤ max_entries

length-remember-le :
    {K V : Type 0} ⦃e : Comparable K⦄ (k : K) (v : V) (m : GoMap K V)
    → length (remember k v m) ≤ max_entries
unfolding remember
length-remember-le k v m = elim (Bool-cases (ltb cache_map_count (length m))) [
  | inl full ↦ rw full (omega (arith, length-insert-le k v []))
  | inr room ↦ rw room (ground (arith, length-insert-le k v m))
]

-- Every write of the provider keeps all six caches within their bound.
pub IsBounded-IsInvariant : IsInvariant (λ w. IsBounded w.provider)
unfolding set_last_finalized remember_in modify
IsBounded-IsInvariant = record {
  ticks = λ w h. h;
  heights = λ n. record { after = λ w h. ground arith };
  fps = λ pks t. record { after = λ w h. ground arith };
  blocks = λ k v. record { after = λ w h. ground (arith, length-remember-le k v w.l2_block_cache) };
  finalized =
      λ k. record { after = λ w h. ground (arith, length-remember-le k true w.finalized_cache) };
  votes =
      λ k v. record { after = λ w h. ground (arith, length-remember-le k v w.voted_fp_pks_cache) };
  times = λ k v. record {
    after = λ w h. ground (arith, length-remember-le k v w.btcblock_height_cache);
  };
  earliest = λ k v. record {
    after = λ w h. ground (arith, length-remember-le k v w.earliest_active_del_btc_height_cache);
  };
  tables = λ k v. record {
    after = λ w h. ground (arith, length-remember-le k v w.multi_fp_power_cache);
  };
}
