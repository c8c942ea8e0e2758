-- ===== src/Finality/Interleaving.antt =====
-- Queries of finality-gadget/rpc/provider that run at the same time.
use blitz.Base.{ℕ, ◌≤◌, arith}
use blitz.Clients.{Clients}
use blitz.Provider.{World}
use blitz.Provider.Bounds.{IsBounded, IsBounded-IsInvariant}
use blitz.Provider.Steps.{Reaches, Reaches-induction, Reaches-IsInvariant}
use blitz.Finality.{query_finalized_block_in_babylon, query_finalized_block_in_babylon_by_number}
use blitz.Finality.Growth.{AtLeast-IsInvariant}
use blitz.Finality.Invariant.{Preserves-query_finalized_block, Preserves-by_number}

-- A query that runs in a world which single steps of the provider lead to, in any order, ends in
-- such a world: a query is a sequence of those steps.
pub queries-Reaches :
    (c : Clients) (w u : World) (n : ℕ)
    → Reaches w u
    → Reaches w (query_finalized_block_in_babylon c u).1
      × Reaches w (query_finalized_block_in_babylon_by_number c n u).1
queries-Reaches c w u n r = (
  (Preserves-query_finalized_block (Reaches-IsInvariant w) c).after u r,
  (Preserves-by_number (Reaches-IsInvariant w) c n).after u r,
)

-- In whatever order the single steps of any number of queries come, the last finalized height
-- never falls, and caches within 4097 entries stay so.
pub Reaches-grows :
    (w u : World)
    → Reaches w u
    → IsBounded w.provider
    → (w.last_finalized_height ≤ u.last_finalized_height) × IsBounded u.provider
Reaches-grows w u r h = (
  Reaches-induction (AtLeast-IsInvariant w.last_finalized_height) w u r (omega arith),
  Reaches-induction IsBounded-IsInvariant w u r h,
)
