-- ===== src/Concurrent/Bounded.antt =====
-- Time goes on in the sections of the search and of a request (finality-gadget/rpc).
use blitz.Base.{ℕ, arith}
use blitz.Exec.{modify}
use blitz.Clients.{Clients}
use blitz.Provider.{World, set_last_finalized}
use blitz.Rpc.{EthRpc}
use blitz.Threads.Sections.{Sections}
use blitz.Threads.Tame.{Grows}
use blitz.Concurrent.{by_number_steps}
use blitz.Concurrent.Search.{query_above_steps}
use blitz.Concurrent.Listing.{Covers, Covers-weaken, by_number-Sections}
use blitz.Concurrent.Quiet.{IsQuiet-Covers}
use blitz.Concurrent.Searching.{query_above-Sections, get_block_by_number-Sections}
use blitz.Concurrent.Requests.{Request, get_block_by_number_steps}

abbrev pub instant_of : World → ℕ
instant_of w = w.instant

abbrev pub IsTimely : (World → World) → Type 0
IsTimely g = Grows instant_of g

IsTimely-Covers : Covers IsTimely
IsTimely-Covers = Covers-weaken (λ g quiet w. (quiet w).1) IsQuiet-Covers

set-IsTimely : (n : ℕ) → IsTimely (λ w. (set_last_finalized n w).1)
unfolding set_last_finalized modify
set-IsTimely n w = omega arith

module _ (c : Clients) where
  pub by_number-IsTimely : (n : ℕ) → Sections IsTimely 18 (by_number_steps c n)
  by_number-IsTimely n = by_number-Sections IsTimely-Covers c n

  pub query_above-IsTimely : (n from : ℕ) → Sections IsTimely 1290 (query_above_steps c n from)
  query_above-IsTimely n from = query_above-Sections IsTimely-Covers set-IsTimely c n from

  pub get_block_by_number-IsTimely :
      (rpc : EthRpc) (request : Request)
      → Sections IsTimely 1293 (get_block_by_number_steps c rpc request)
  get_block_by_number-IsTimely rpc request =
      get_block_by_number-Sections IsTimely-Covers set-IsTimely c rpc request
