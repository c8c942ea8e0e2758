-- ===== src/Concurrent/Decisions.antt =====
-- Many goroutines that ask finality-gadget/rpc/provider about blocks, on chains whose answers do not
-- change.
use blitz.Base.{ℕ, ◌≤◌, ◌≡◌, Bool, List, [], length, arith}
use blitz.Clients.{Clients}
use blitz.Provider.{World}
use blitz.Finality.Reference.{Snapshot, IsStable, DistinctHashes, reference}
use blitz.Finality.Agreement.{Agrees, Agreeing}
use blitz.Threads.System.{Event, System, arrives, happen, happens, runs_of}
use blitz.Threads.Sections.{Each-Guarded}
use blitz.Threads.Answers.{Returned, happens-answered}
use blitz.Concurrent.{by_number_steps}
use blitz.Concurrent.Transparent.{Gives-by_number}
use blitz.Concurrent.Bounded.{instant_of, IsTimely, by_number-IsTimely}

-- The goroutines of a provider, after the events.
abbrev pub asked : Clients → World → List (Event ℕ) → System World ℕ Bool
asked c w es = happens (by_number_steps c) es (record { shared = w; goroutines = [] })

-- A question comes in between the events, and gets the next goroutine.
abbrev pub asked_between :
    Clients → World → List (Event ℕ) → ℕ → List (Event ℕ) → System World ℕ Bool
asked_between c w before n after =
    happens (by_number_steps c) after (happen (by_number_steps c) (arrives n) (asked c w before))

-- On a stable chain with distinct block hashes, and from caches that agree with it: whatever
-- questions about blocks come in before and after a question, and in whatever order the sections
-- of their goroutines are run, once its goroutine has been run 18 times it has returned what the
-- decision without caches says, errors included, and the caches agree.
pub by_number-answered :
    (c : Clients) (s : Snapshot) (w : World) (before after : List (Event ℕ)) (n : ℕ)
    → IsStable c s
    → DistinctHashes s
    → Agrees s w.provider
    → 18 ≤ runs_of (length (asked c w before).goroutines) after
    → Returned
        (asked_between c w before n after)
        (length (asked c w before).goroutines)
        n
        (reference s n)
      × Agrees s (asked_between c w before n after).shared.provider
by_number-answered c s w before after n stable distinct h often =
    let (r, at, e, agrees) =
      happens-answered (Agreeing s) instant_of (λ m t x. x ≡ reference s m) (by_number_steps c) 18
        (by_number-IsTimely c)
        (λ m t.
          Each-Guarded IsTimely (Agreeing s) (λ u. t ≤ u.instant) _ 18 _
            (λ g forward u le. omega (arith, forward u, le))
            (Gives-by_number s c stable distinct m).sections (by_number-IsTimely c m).each)
        w h before after n often in
    ((rw e at at), agrees)
