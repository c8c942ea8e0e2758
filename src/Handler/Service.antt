-- ===== src/Handler/Service.antt =====
-- `Start` and `Wait` of `L2BlockHandler` (finality-gadget/operator/block_handler.go), with the ticks
-- that come before the context is done.
use blitz.Base.{
  ℕ, zero, suc, ◌*◌, ◌+◌, ◌-◌, ◌^◌, ◌<◌, ◌≡◌, refl, String, List, Reply, value, new, ok, ◌==◌,
  integer_eq, nat_eq, ltb, arith, if◌then◌else◌, Bool, true, false, ℤ, pos, negsuc,
}
use blitz.Exec
use blitz.Exec.Leads.{recover-bind}
use blitz.Process.{
  Process, Outcome, returned, panicked, pure, panic, gets, modify, deferring, within, ◌>>=◌, ◌>>◌,
}
use blitz.Clients.{EthBlock, Clients}
use blitz.Handler.{HandlerWorld, second, call, initialize, fetch_blocks, ticks}
use blitz.Handler.Due.{IsExact}
use blitz.Handler.Ticks.{ticks-IsExact}

-- The handler, and the counter of `wg`.
pub record HandlerService : Type 0 where
  pub world : HandlerWorld
  pub wg : ℕ

abbrev pub is_positive : ℤ → Bool
is_positive (pos n) = ltb 0 n
is_positive (negsuc n) = false

-- `time.NewTicker` panics if the interval is not positive.
unfoldable pub new_ticker : ℤ → Process HandlerService (Unit {0})
new_ticker interval =
    if is_positive interval then pure tt else panic (new "non-positive interval for NewTicker")

-- `defer func() { …; h.wg.Done() }()`
abbrev pub leave : HandlerService → HandlerService
leave s = record s { wg = s.wg - 1 }

-- A method of the handler.
abbrev pub on_world : Exec.Exec HandlerWorld (Unit {0}) → Process HandlerService (Unit {0})
on_world = within (λ s. s.world) (λ s w. record s { world = w })

-- `h.wg.Wait()`, behind which the counter is 0
unfoldable pub wait_handler : Process HandlerService (Unit {0})
wait_handler = modify (λ s. record s { wg = 0 })

module _ (c : Clients) (on_block : ℕ → String → EthBlock → Reply (Unit {0})) where
  -- The goroutine, with so many ticks.
  unfoldable pub watch : ℕ → Process HandlerService (Unit {0})
  watch n = do
    interval ← gets (λ s. s.world.fetch_block_interval)
    new_ticker interval
    on_world (ticks c on_block n)

  unfoldable pub start_handler : ℕ → Process HandlerService (Unit {0})
  start_handler n = do
    modify (λ s. record s { wg = s.wg + 1 })
    on_world (initialize c on_block)
    deferring leave (watch n)

abbrev default_interval : ℤ → ℤ
default_interval interval = if interval == pos 0 then pos (1 * second) else interval

-- How `Start` and its goroutine end, by the interval that is configured.
abbrev pub ended : ℤ → Outcome (Unit {0})
ended (pos n) = returned tt
ended (negsuc n) = panicked (new "non-positive interval for NewTicker")

-- The handler when the goroutine begins.
abbrev ready : HandlerWorld → HandlerWorld
ready w = record w {
  handler = record w.handler { fetch_block_interval = default_interval w.fetch_block_interval };
  instant = w.instant + 1;
}

module _ (c : Clients) (on_block : ℕ → String → EthBlock → Reply (Unit {0})) where
  initialize_lem : (w : HandlerWorld) → initialize c on_block w ≡ (ok tt, ready w)
  unfolding initialize Exec.modify Exec.pure call Exec.◌>>=◌
  initialize_lem w = recover-bind (call (λ e. e) c.block_number) (Exec.pure tt) (record w {
    handler = record w.handler { fetch_block_interval = default_interval w.fetch_block_interval };
  })

  ready-IsExact :
      (interval first : ℕ) (before : List ℕ) (w : HandlerWorld)
      → IsExact interval first before w
      → IsExact interval first before (ready w)
  ready-IsExact interval first before w h = assumption

  ticks-ok : (n : ℕ) (w : HandlerWorld) → (ticks c on_block n w).0 ≡ ok tt
  unfolding ticks Exec.pure
  ticks-ok zero w = refl
  ticks-ok (suc n) w =
      rw (recover-bind (fetch_blocks c on_block) (ticks c on_block n) w)
        (ticks-ok n (fetch_blocks c on_block w).1)

  -- What the goroutine leaves of the handler: behind the panic there are no ticks.
  abbrev watched : ℤ → ℕ → HandlerWorld → HandlerWorld
  watched (pos interval) n w = (ticks c on_block n w).1
  watched (negsuc interval) n w = w

  counted : (s : HandlerService) → s.wg + 1 - 1 ≡ s.wg
  counted s = omega arith

  start_lem :
      (n : ℕ) (interval : ℤ) (s : HandlerService)
      → s.world.fetch_block_interval ≡ interval
      → start_handler c on_block n s
        ≡ (ended interval, record s { world = watched interval n (ready s.world) })
  unfolding start_handler watch new_ticker gets modify deferring within pure panic ◌>>=◌
  start_lem n (pos zero) s q = rw (initialize_lem s.world, q, ticks-ok n _, counted s) refl
  start_lem n (pos (suc i)) s q =
      let given : (suc i == 0) ≡ false = ground arith in
      let positive : ltb 0 (suc i) ≡ true = ground arith in
      rw (initialize_lem s.world, q, given, positive, ticks-ok n _, counted s) refl
  start_lem n (negsuc i) s q = rw (initialize_lem s.world, q, counted s) refl

  watched-IsExact :
      (block_interval first : ℕ) (before : List ℕ) (n : ℕ) (interval : ℤ) (w : HandlerWorld)
      → ((t h : ℕ) → c.block_number t ≡ value h → h < 2 ^ 64)
      → IsExact block_interval first before w
      → IsExact block_interval first before (watched interval n w)
  watched-IsExact block_interval first before n (pos i) w small h =
      ticks-IsExact block_interval first before c on_block n w small h
  watched-IsExact block_interval first before n (negsuc i) w small h = h

  -- If the heads that the L2 node answers are below 2^64, and from a handler that has handed on
  -- exactly what is due after a first number and up to its latest one: `Start` panics at its
  -- ticker exactly if the interval that is configured is negative. Whether or not it does, and
  -- over any number of ticks before the context is done, whatever the node and the processers
  -- answer, `handleBlock` is still called exactly once, and in order, for every number that is due
  -- after the first one and up to the latest one processed; when the goroutine has ended the wait
  -- group counts as before.
  pub start_handler-IsExact :
      (interval first : ℕ) (before : List ℕ) (n : ℕ) (s : HandlerService)
      → ((t h : ℕ) → c.block_number t ≡ value h → h < 2 ^ 64)
      → IsExact interval first before s.world
      → ((start_handler c on_block n s).0 ≡ ended s.world.fetch_block_interval)
        × IsExact interval first before (start_handler c on_block n s).1.world
        × ((start_handler c on_block n s).1.wg ≡ s.wg)
  start_handler-IsExact interval first before n s small h =
      rw (start_lem n s.world.fetch_block_interval s refl) (
        refl,
        watched-IsExact interval first before n s.world.fetch_block_interval (ready s.world) small
            (ready-IsExact interval first before s.world h),
        refl,
      )
