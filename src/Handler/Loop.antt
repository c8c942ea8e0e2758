-- ===== src/Handler/Loop.antt =====
-- The loop of `fetchBlocks` (finality-gadget/operator/block_handler.go) keeps the account of what
-- was handed on.
use mathlib.Core.List.{append-nil, append_assoc}
use blitz.Base.{
  ℕ, zero, suc, ◌+◌, ◌-◌, ◌^◌, ◌≤◌, ◌<◌, ◌≡◌, refl, sym, String, true, false, List, Error, Reply,
  value, fails, received, map_err, u64, arith,
}
use blitz.Exec.Leads.{
  Outcome, Leads, Leads-pure, Leads-wrapping, Leads-if, Leads-modify, Leads-bind, Leads-gets,
}
use blitz.Clients.{EthBlock, Clients}
use blitz.Handler.{HandlerWorld, is_skipped, call, handle_block, fetch_block, fetch_due, fetch_loop}
use blitz.Handler.Deliveries.{handle_block_lem}
use blitz.Handler.Due.{due, due-step, At, Handled, Exact, At-IsExact, Exact-later}

module _ (interval first : ℕ) (before : List ℕ) (c : Clients)
    (on_block : ℕ → String → EthBlock → Reply (Unit {0})) where
  abbrev Here : ℕ → HandlerWorld → Type 0
  Here = At interval first before

  abbrev After : ℕ → HandlerWorld → Type 0
  After = Handled interval first before

  abbrev Kept : HandlerWorld → Type 0
  Kept = Exact interval first before

  handles :
      (i : ℕ) (blk : EthBlock) (w : HandlerWorld)
      → is_skipped interval i ≡ false
      → i < 2 ^ 64
      → Here i w
      → Outcome
          (λ _. After i)
          Kept
          (handle_block c on_block i blk w).0
          (handle_block c on_block i blk w).1
  handles i blk w take small h =
      let e : i - first ≡ i + 1 - (first + 1) = omega arith in
      rw handle_block_lem (record {
        setting = h.setting;
        started = omega arith;
        small = small;
        exact =
            rw (e, due-step interval (first + 1) i (omega arith), take, h.exact)
              (append_assoc before _ _);
      })

  calls :
      {A : Type 0} {i : ℕ} (wrapper : Error → Error) (request : ℕ → Reply A)
      → Leads (Here i) (call wrapper request) (λ _. Here i) Kept
  unfolding call
  calls {A} {i} wrapper request = record { to = λ w h. answered (request w.instant) w h }
    where
      answered :
          (r : Reply A) (w : HandlerWorld)
          → Here i w
          → Outcome
              (λ _. Here i)
              Kept
              (map_err wrapper (received r))
              (record w { instant = w.instant + 1 })
      answered (value a) w h = record {
        setting = h.setting;
        started = h.started;
        passed = h.passed;
        small = h.small;
        exact = h.exact;
        quiet = h.quiet;
      }
      answered (fails m) w h =
          Exact-later interval first before w (At-IsExact interval first before w h)

  fetches :
      (i : ℕ)
      → is_skipped interval i ≡ false
      → i < 2 ^ 64
      → Leads (Here i) (fetch_block c on_block i) (λ _. Here (i + 1)) Kept
  unfolding fetch_block
  fetches i take small =
      Leads-bind (λ blk. Here i) _ _ (calls _ _)
        λ blk.
          Leads-bind (λ _. After i) _ _
            (Leads-wrapping _ _ (record { to = λ w h. handles i blk w take small h }))
            λ _. Leads-modify _ (λ w h.
              let e : i + 1 - (first + 1) ≡ i - first = omega arith in
              record {
                setting = h.setting;
                started = omega arith;
                passed = omega arith;
                small = omega arith;
                exact = rw e h.exact;
                quiet = rw e refl;
              })

  fetches_due :
      (i : ℕ)
      → i < 2 ^ 64
      → Leads (Here i) (fetch_due c on_block interval i) (λ _. Here (i + 1)) Kept
  unfolding fetch_due
  fetches_due i small =
      Leads-if (is_skipped interval i) _ _
        (λ skip. Leads-pure tt (λ w h.
          let same = skipped_due i skip (omega arith) in
          record {
            setting = h.setting;
            started = h.started;
            passed = omega arith;
            small = omega arith;
            exact = rw same h.exact;
            quiet = rw same h.quiet;
          }))
        (λ take. Leads-wrapping _ _ (fetches i take small))
    where
      skipped_due :
          (i : ℕ)
          → is_skipped interval i ≡ true
          → first + 1 ≤ i
          → due interval (first + 1) (i + 1 - (first + 1))
            ≡ due interval (first + 1) (i - (first + 1))
      skipped_due i skip le = rw (due-step interval (first + 1) i le, skip) (append-nil _)

  pub loops :
      (rounds i current : ℕ)
      → i + rounds ≡ current
      → current < 2 ^ 64
      → Leads (Here i) (fetch_loop c on_block rounds i) (λ _. Here current) Kept
  unfolding fetch_loop
  loops zero i current e small =
      let same : i ≡ current = omega arith in Leads-pure tt (λ w h. rw (← same) h)
  loops (suc rounds) i current e small =
      let next : u64 (i + 1) ≡ i + 1 = omega arith in
      rw next (
        Leads-gets _ _ interval (λ w h. sym h.setting)
          (Leads-bind (λ _. Here (i + 1)) _ _ (fetches_due i (omega arith))
            (λ _. loops rounds (i + 1) current (omega arith) small)))

  -- The state at the start of the loop.
  pub IsExact-At :
      (w : HandlerWorld)
      → Kept w
      → w.latest_block_number + 1 ≤ 2 ^ 64
      → Here (w.latest_block_number + 1) w
  IsExact-At w h small =
      let e : w.latest_block_number + 1 - (first + 1) ≡ w.latest_block_number - first =
        omega arith in
      record {
        setting = h.setting;
        started = h.started;
        passed = omega arith;
        small = small;
        exact = rw e h.exact;
        quiet = rw e refl;
      }
