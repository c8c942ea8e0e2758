-- ===== src/Finality/Soundness.antt =====
-- What an RPC client may rely on: which block the query reports, and that the caches of
-- finality-gadget/rpc/provider change nothing, on chains whose answers do not change.
use blitz.Base.{ℕ, ◌^◌, ◌≤◌, ◌<◌, ◌≡◌, Bool, true, ok, value, arith}
use blitz.Base.GoMap.{lookup}
use blitz.Clients.{Clients}
use blitz.Provider.{World, new_finalized_state_provider}
use blitz.Finality.{query_finalized_block_in_babylon_by_number, query_finalized_block_in_babylon}
use blitz.Finality.Range.{search_start, later, query_finalized_block-answered}
use blitz.Finality.Newest.{IsNewest, NoGaps}
use blitz.Finality.Reference.{Snapshot, IsStable, DistinctHashes, reference}
use blitz.Finality.Agreement.{Agrees, Preserves-set}
use blitz.Threads.Runs.{Runs-Implements}
use blitz.Concurrent.Transparent.{Implements-by_number, Gives-by_number}
use blitz.Concurrent.SearchAlone.{query_above-Runs}
use blitz.Concurrent.Newest.{query_above-IsNewest}

-- On stable chains with distinct block hashes, and from caches that agree with them, the cached
-- query of a block returns exactly what the decision without caches returns, errors included, and
-- the caches agree afterwards.
pub by_number-reference :
    (c : Clients) (s : Snapshot) (w : World) (n : ℕ)
    → IsStable c s
    → DistinctHashes s
    → Agrees s w.provider
    → ((query_finalized_block_in_babylon_by_number c n w).0 ≡ reference s n)
      × Agrees s (query_finalized_block_in_babylon_by_number c n w).1.provider
by_number-reference c s w n stable distinct h =
    let m = Implements-by_number s c stable distinct n in (m.returns w h, m.keeps w h)

-- The caches of a new provider agree with every chain.
pub new_finalized_state_provider-Agrees : (s : Snapshot) → Agrees s new_finalized_state_provider
unfolding lookup
new_finalized_state_provider-Agrees s = record {
  fps = tt;
  blocks = λ k v e. cc;
  heights = λ k v e. cc;
  votes = λ k v e. cc;
  tables = λ k v e. cc;
  finalized = λ k v e. cc;
}

-- On stable chains with distinct block hashes, with caches that agree, a head `n` beyond the start
-- of the search and below 2^63, a start that is finalized, a decision for every block up to the
-- head, and no gaps in finality, the query returns the newest finalized block below the head, and
-- the caches agree afterwards.
pub query_finalized_block-IsNewest :
    (c : Clients) (s : Snapshot) (w : World) (n : ℕ) (q : ℕ → Bool)
    → IsStable c s
    → DistinctHashes s
    → Agrees s w.provider
    → c.block_number w.instant ≡ value n
    → n < 2 ^ 63
    → search_start w < n
    → ((h : ℕ) → h ≤ n → reference s h ≡ ok (q h))
    → q (search_start w) ≡ true
    → NoGaps q (search_start w) n
    → (r : ℕ) × ((query_finalized_block_in_babylon c w).0 ≡ ok r)
      × IsNewest q (search_start w) n r
      × Agrees s (query_finalized_block_in_babylon c w).1.provider
query_finalized_block-IsNewest c s w n q stable distinct h answer small ahead decided start gaps =
    let (r, gives, newest) =
      query_above-IsNewest c q n small (λ _. Unit) (λ k _. Preserves-set s k) (λ _ _ _ _ _ _. tt)
        (λ k le. rw (← decided k le) (Gives-by_number s c stable distinct k)) n (search_start w)
        (ground arith) ahead (omega arith) start gaps in
    let found = Runs-Implements _ _ _ (query_above-Runs c n (search_start w)) gives in
    let answered = query_finalized_block-answered c w n answer in
    (r, rw answered (found.returns (later w) h), newest, rw answered (found.keeps (later w) h))
