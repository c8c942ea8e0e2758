-- ===== src/Finality/Growth.antt =====
-- What holds of the provider after any query, whatever the clients answered.
use blitz.Base.{ℕ, ◌≤◌, arith}
use blitz.Exec.{modify}
use blitz.Clients.{Clients}
use blitz.Provider.{World, set_last_finalized, remember_in}
use blitz.Provider.Invariant.{IsInvariant}
use blitz.Provider.Bounds.{IsBounded, IsBounded-IsInvariant}
use blitz.Finality.{query_finalized_block_in_babylon}
use blitz.Finality.Invariant.{Preserves-query_finalized_block}

pub AtLeast-IsInvariant : (n : ℕ) → IsInvariant (λ w. n ≤ w.last_finalized_height)
unfolding set_last_finalized remember_in modify
AtLeast-IsInvariant n = record {
  ticks = λ w h. h;
  heights = λ k. record { after = λ w h. ground arith };
  fps = λ pks t. record { after = λ w h. h };
  blocks = λ k v. record { after = λ w h. h };
  finalized = λ k. record { after = λ w h. h };
  votes = λ k v. record { after = λ w h. h };
  times = λ k v. record { after = λ w h. h };
  earliest = λ k v. record { after = λ w h. h };
  tables = λ k v. record { after = λ w h. h };
}

-- From caches within 4097 entries, a query of the newest finalized block never lowers the last
-- finalized height, and it keeps every cache within 4097 entries, whatever the clients answer and
-- whether or not it returns an error.
pub query_finalized_block-grows :
    (c : Clients) (w : World)
    → IsBounded w.provider
    → (w.last_finalized_height ≤ (query_finalized_block_in_babylon c w).1.last_finalized_height)
      × IsBounded (query_finalized_block_in_babylon c w).1.provider
query_finalized_block-grows c w h = (
  (Preserves-query_finalized_block (AtLeast-IsInvariant w.last_finalized_height) c).after w
      (omega arith),
  (Preserves-query_finalized_block IsBounded-IsInvariant c).after w h,
)
