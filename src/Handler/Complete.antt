-- ===== src/Handler/Complete.antt =====
-- A round of `fetchBlocks` (finality-gadget/operator/block_handler.go) on a node that has the blocks.
use blitz.Base.{
  ℕ, zero, suc, ◌+◌, ◌^◌, ◌≤◌, ◌<◌, ◌≡◌, refl, ap, ◌∙◌, String, false, List, inl, inr, Result, ok,
  Reply, value, leb, u64, int64, arith, Bool-cases,
}
use blitz.Exec.{Exec, pure, gets, modify, wrapping, continue, ◌>>=◌}
use blitz.Clients.{EthBlock, Clients}
use blitz.Handler.{
  HandlerWorld, is_skipped, call, fetch_block, fetch_due, fetch_loop, fetch_after, fetch_blocks,
}
use blitz.Handler.Deliveries.{handle_block_lem}
use blitz.Handler.Due.{IsExact}
use blitz.Handler.Ticks.{CaughtUp, fetch_blocks-CaughtUp}

continue_ok {ℓ} :
    {S A B : Type ℓ} (r : Result A) (f : A → Exec S B) (s : S) (a : A)
    → r ≡ ok a
    → continue r f s ≡ f a s
continue_ok r f s a e = rw e refl

bind_ok {ℓ} :
    {S A B : Type ℓ} (m : Exec S A) (f : A → Exec S B) (s : S) (a : A)
    → (m s).0 ≡ ok a
    → (m >>= f) s ≡ f a (m s).1
unfolding ◌>>=◌
bind_ok m f s a e = continue_ok (m s).0 f (m s).1 a e

module _ (c : Clients) (on_block : ℕ → String → EthBlock → Reply (Unit {0})) (current : ℕ) where
  -- At every instant the node has every block below the head.
  abbrev pub HasBlocks : Type 0
  HasBlocks =
      (t i : ℕ) → i < current → (blk : EthBlock) × (c.block_by_number t (int64 i) ≡ value blk)

  module _ (blocks : HasBlocks) where
    fetch_block-ok :
        (i : ℕ) (w : HandlerWorld) → i < current → (fetch_block c on_block i w).0 ≡ ok tt
    unfolding fetch_block ◌>>=◌ call wrapping modify
    fetch_block-ok i w le =
        let answer = blocks w.instant i le in
        rw answer.1
          (rw (handle_block_lem c on_block i answer.0 (record w { instant = w.instant + 1 })) refl)

    fetch_due-ok :
        (interval i : ℕ) (w : HandlerWorld)
        → i < current
        → (fetch_due c on_block interval i w).0 ≡ ok tt
    unfolding fetch_due pure wrapping
    fetch_due-ok interval i w le = elim (Bool-cases (is_skipped interval i)) [
      | inl skip ↦ rw skip refl
      | inr due ↦ rw due (rw (fetch_block-ok i w le) refl)
    ]

    fetch_loop-ok :
        (rounds i : ℕ) (w : HandlerWorld)
        → i + rounds ≤ current
        → current < 2 ^ 64
        → (fetch_loop c on_block rounds i w).0 ≡ ok tt
    unfolding fetch_loop gets pure
    fetch_loop-ok zero i w le small = refl
    fetch_loop-ok (suc rounds) i w le small =
        let next : u64 (i + 1) ≡ i + 1 = ground arith in
        let interval = w.block_interval in
        ap (λ p. p.0)
          (bind_ok (gets (λ w. w.block_interval)) _ w interval refl
            ∙ bind_ok (fetch_due c on_block interval i) _ w tt
                (fetch_due-ok interval i w (omega arith)))
        ∙ rw next
            (fetch_loop-ok rounds (i + 1) (fetch_due c on_block interval i w).1 (omega arith) small)

    fetch_after-ok :
        (w : HandlerWorld)
        → w.latest_block_number < current
        → current < 2 ^ 64
        → (fetch_after c on_block current w.latest_block_number w).0 ≡ ok tt
    unfolding fetch_after pure
    fetch_after-ok w behind small =
        let next : u64 (w.latest_block_number + 1) ≡ w.latest_block_number + 1 = ground arith in
        let not_yet : leb current w.latest_block_number ≡ false = ground arith in
        rw (not_yet, next) (fetch_loop-ok _ _ w (omega arith) small)

    fetch_blocks-ok :
        (w : HandlerWorld)
        → c.block_number w.instant ≡ value current
        → w.latest_block_number < current
        → current < 2 ^ 64
        → (fetch_blocks c on_block w).0 ≡ ok tt
    unfolding fetch_blocks ◌>>=◌ call gets
    fetch_blocks-ok w answer behind small =
        rw answer (fetch_after-ok (record w { instant = w.instant + 1 }) behind small)

    -- If the head is beyond the latest number and below 2^64, and the node has every block below
    -- the head, then, from a handler whose deliveries are exact, a round of fetching returns no
    -- error, and exactly the numbers that are due after the first one and below the head have been
    -- handed on, in order and once each.
    pub fetch_blocks-completes :
        (interval first : ℕ) (before : List ℕ) (w : HandlerWorld)
        → c.block_number w.instant ≡ value current
        → current < 2 ^ 64
        → IsExact interval first before w
        → w.latest_block_number < current
        → ((fetch_blocks c on_block w).0 ≡ ok tt)
          × CaughtUp interval first before c on_block current (fetch_blocks c on_block w).1
    fetch_blocks-completes interval first before w answer small h behind =
        let done = fetch_blocks-ok w answer behind small in
        (
          done,
          fetch_blocks-CaughtUp interval first before c on_block w current answer small h behind
              done,
        )
