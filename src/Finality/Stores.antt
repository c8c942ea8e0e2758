-- ===== src/Finality/Stores.antt =====
-- Which writes of the caches of finality-gadget/rpc/provider keep them in agreement with a chain.
use blitz.Base.{ℕ, ◌≡◌, String, true, Option, List, [], ◌∷◌, ok, nat_eq, string_eq}
use blitz.Base.GoMap.{GoMap}
use blitz.Exec.{modify}
use blitz.Exec.Preserves.{Preserves}
use blitz.Clients.{EthBlock}
use blitz.Provider.{l2_blocks, finalized_blocks, voters, btc_heights, powers, remember_in, with_fps}
use blitz.Finality.Reference.{Snapshot, reference_fps}
use blitz.Finality.Agreement.{
  Agreeing, AllTrue-remember, BlockIsTrue, HeightIsTrue, VotersAreTrue, PowersAreTrue,
  FinalizedIsTrue, FpsAreTrue,
}

module _ (s : Snapshot) where
  pub stores_block :
      (n : ℕ) (b : EthBlock)
      → BlockIsTrue s n b
      → Preserves (Agreeing s) (remember_in l2_blocks n b)
  unfolding remember_in modify
  stores_block n b t = record {
    after = λ w h. assumption (AllTrue-remember (BlockIsTrue s) n b w.l2_block_cache h.blocks t);
  }

  pub stores_height :
      (k : String) (v : ℕ)
      → HeightIsTrue s k v
      → Preserves (Agreeing s) (remember_in btc_heights k v)
  unfolding remember_in modify
  stores_height k v t = record {
    after = λ w h.
        assumption (AllTrue-remember (HeightIsTrue s) k v w.btcblock_height_cache h.heights t);
  }

  pub stores_voters :
      (k : String) (v : Option (List String))
      → VotersAreTrue s k v
      → Preserves (Agreeing s) (remember_in voters k v)
  unfolding remember_in modify
  stores_voters k v t = record {
    after =
        λ w h. assumption (AllTrue-remember (VotersAreTrue s) k v w.voted_fp_pks_cache h.votes t);
  }

  pub stores_powers :
      (k : ℕ) (v : GoMap String ℕ)
      → PowersAreTrue s k v
      → Preserves (Agreeing s) (remember_in powers k v)
  unfolding remember_in modify
  stores_powers k v t = record {
    after = λ w h.
        assumption (AllTrue-remember (PowersAreTrue s) k v w.multi_fp_power_cache h.tables t);
  }

  pub stores_finalized :
      (k : ℕ)
      → FinalizedIsTrue s k true
      → Preserves (Agreeing s) (remember_in finalized_blocks k true)
  unfolding remember_in modify
  stores_finalized k t = record {
    after = λ w h.
        assumption (AllTrue-remember (FinalizedIsTrue s) k true w.finalized_cache h.finalized t);
  }

  pub FpsAreTrue-ok : (pks : List String) → reference_fps s ≡ ok pks → FpsAreTrue s pks
  FpsAreTrue-ok [] e = tt
  FpsAreTrue-ok (pk ∷ pks) e = e

  pub stores_fps :
      (pks : List String) (current : ℕ)
      → reference_fps s ≡ ok pks
      → Preserves (Agreeing s) (modify (with_fps pks current))
  unfolding modify
  stores_fps pks current e = record { after = λ w h. assumption (FpsAreTrue-ok pks e) }
