-- ===== src/Concurrent/Growth.antt =====
-- What holds of finality-gadget/rpc/provider while any number of goroutines serve requests, whatever
-- the clients answer.
use blitz.Base.{ℕ, ◌+◌, ◌≤◌, String, List, [], arith}
use blitz.Exec.{modify, ◌>>=◌}
use blitz.Clients.{Clients}
use blitz.Provider.{World, current_time, set_last_finalized}
use blitz.Provider.Invariant.{IsInvariant, Preserves-fresh_fps}
use blitz.Provider.Bounds.{IsBounded, IsBounded-IsInvariant}
use blitz.Rpc.{EthRpc}
use blitz.Threads.Sections.{Each-Keeps}
use blitz.Threads.System.{Event, System, happens}
use blitz.Threads.Tame.{Grows, IsTame, happens-AllTame, happens_later}
use blitz.Concurrent.{read_fps, write_fps}
use blitz.Concurrent.Listing.{Covers, Covers-weaken}
use blitz.Concurrent.Quiet.{IsQuiet-Covers}
use blitz.Concurrent.Searching.{get_block_by_number-Sections}
use blitz.Concurrent.Requests.{Request, get_block_by_number_steps}
use blitz.Concurrent.Served.{serving}

abbrev Keeps : (World → Type 0) → (World → World) → Type 0
Keeps P g = (w : World) → P w → P (g w)

module _ {P : World → Type 0} (inv : IsInvariant P) (c : Clients) where
  read-Keeps : Keeps P (λ w. (read_fps c w).1)
  unfolding read_fps
  read-Keeps w h = (Preserves-fresh_fps inv c w.all_fps_cache).after w h

  write-Keeps : (pks : List String) → Keeps P (λ w. (write_fps c pks w).1)
  unfolding write_fps current_time modify ◌>>=◌
  write-Keeps pks w h =
      (inv.fps pks (c.now w.instant)).after (record w { instant = w.instant + 1 }) (inv.ticks w h)

-- What the writes of the program keep, each section of a query keeps.
IsInvariant-Covers : {P : World → Type 0} → IsInvariant P → Covers (Keeps P)
IsInvariant-Covers inv = record {
  stays = λ w h. h;
  ticks = inv.ticks;
  reads = read-Keeps inv;
  writes = write-Keeps inv;
  blocks = λ k v. (inv.blocks k v).after;
  finalized = λ k. (inv.finalized k).after;
  votes = λ k v. (inv.votes k v).after;
  times = λ k v. (inv.times k v).after;
  tables = λ k v. (inv.tables k v).after;
}

abbrev height_of : World → ℕ
height_of w = w.last_finalized_height

Grows-Covers : Covers (Grows height_of)
Grows-Covers = Covers-weaken (λ g quiet w. omega (arith, (quiet w).0)) IsQuiet-Covers

set-Grows : (n : ℕ) → Grows height_of (λ w. (set_last_finalized n w).1)
unfolding set_last_finalized modify
set-Grows n w = ground arith

abbrev Small : World → Type 0
Small w = IsBounded w.provider

request-IsTame :
    (c : Clients) (rpc : EthRpc) (request : Request)
    → IsTame Small height_of (get_block_by_number_steps c rpc request)
request-IsTame c rpc request = record {
  keeps =
      Each-Keeps (Keeps Small) Small 1293 _ (λ g h. h)
        (get_block_by_number-Sections (IsInvariant-Covers IsBounded-IsInvariant)
          (λ n. (IsBounded-IsInvariant.heights n).after) c rpc request).each;
  bound = 1293;
  grows = (get_block_by_number-Sections Grows-Covers set-Grows c rpc request).each;
}

module _ (c : Clients) (rpc : EthRpc) (w : World) where
  -- The server, after some events and more of them.
  abbrev pub serving_on : List (Event Request) → List (Event Request) → System World Request rpc.Raw
  serving_on before after = happens (get_block_by_number_steps c rpc) after (serving c rpc w before)

-- From caches within 4097 entries, whatever the clients and the node answer: whatever requests
-- come in, and in whatever order the sections of their goroutines are run, the last finalized
-- height never falls, and every cache stays within 4097 entries.
pub serving-grows :
    (c : Clients) (rpc : EthRpc) (w : World) (before after : List (Event Request))
    → IsBounded w.provider
    → ((serving c rpc w before).shared.last_finalized_height
        ≤ (serving_on c rpc w before after).shared.last_finalized_height)
      × IsBounded (serving_on c rpc w before after).shared.provider
serving-grows c rpc w before after h =
    let program = get_block_by_number_steps c rpc in
    let (tame, kept) =
      happens-AllTame Small height_of program (request-IsTame c rpc) before
        (record { shared = w; goroutines = [] }) tt h in
    (
      happens_later Small height_of program (request-IsTame c rpc) after (serving c rpc w before)
          tame kept,
      (happens-AllTame Small height_of program (request-IsTame c rpc) after (serving c rpc w before)
          tame kept).1,
    )
