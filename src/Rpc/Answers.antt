-- ===== src/Rpc/Answers.antt =====
-- What a client of finality-gadget/rpc/rpc.go is answered.
use blitz.Base.{
  ℕ, ◌^◌, ◌≤◌, ◌<◌, ◌≡◌, refl, ap, Bool, true, Result, ok, err, wrap, value, map_err, received, pos,
  int64, ltb, ℤ, ◌==◌, integer_eq, arith, same_integer_iff, ◌+◌,
}
use blitz.Exec.{wrapping, continue, ◌>>=◌}
use blitz.Clients.{Clients}
use blitz.Provider.{World, ask}
use blitz.Finality.{query_finalized_block_in_babylon}
use blitz.Finality.Range.{search_start}
use blitz.Finality.Newest.{IsNewest, NoGaps}
use blitz.Finality.Reference.{Snapshot, IsStable, DistinctHashes, reference}
use blitz.Finality.Agreement.{Agrees}
use blitz.Finality.Soundness.{query_finalized_block-IsNewest}
use blitz.Rpc.{EthRpc, call_by_number, get_block_by_number}

map_err-id {ℓ} : {A : Type ℓ} (r : Result A) → map_err (λ e. e) r ≡ r
map_err-id (ok a) = refl
map_err-id (err e) = refl

module _ (c : Clients) (rpc : EthRpc) where
  pub call_by_number-received :
      (number : ℤ) (full_tx : Bool) (w : World)
      → call_by_number c rpc number full_tx w ≡ (
        received (rpc.call_context w.instant (rpc.string number) full_tx),
        record w { instant = w.instant + 1 },
      )
  unfolding call_by_number ask
  call_by_number-received number full_tx w =
      ap (λ r. (r, record w { instant = w.instant + 1 })) (map_err-id (received _))

  finalized_after :
      (full_tx : Bool) (q : Result ℕ) (u : World) (r : ℕ)
      → q ≡ ok r
      → r < 2 ^ 63
      → (continue
          (map_err (wrap "failed to QueryFinalizedBlockInBabylon") q)
          (λ finalized. call_by_number c rpc (int64 finalized) full_tx)
          u)
        ≡ (
          received (rpc.call_context u.instant (rpc.string (pos r)) full_tx),
          record u { instant = u.instant + 1 },
        )
  finalized_after full_tx q u r e small =
      let fits : ltb r (2 ^ 63) ≡ true = ground arith in
      rw (e, fits) (call_by_number-received (pos r) full_tx u)

  -- On stable chains with distinct block hashes, with caches that agree, a head `n` beyond the
  -- start of the search and below 2^63, a start that is finalized, a decision for every block up
  -- to the head, and no gaps in finality, a request for the finalized block gets the answer of the
  -- node to the number of the newest finalized block below the head, and the caches agree
  -- afterwards.
  pub get_block_by_number-IsNewest :
      (s : Snapshot) (w : World) (n : ℕ) (q : ℕ → Bool) (full_tx : Bool)
      → IsStable c s
      → DistinctHashes s
      → Agrees s w.provider
      → c.block_number w.instant ≡ value n
      → n < 2 ^ 63
      → search_start w < n
      → ((h : ℕ) → h ≤ n → reference s h ≡ ok (q h))
      → q (search_start w) ≡ true
      → NoGaps q (search_start w) n
      → (r : ℕ) × IsNewest q (search_start w) n r
        × ((get_block_by_number c rpc rpc.finalized_block_number full_tx w).0
            ≡ received (
                rpc.call_context
                  (query_finalized_block_in_babylon c w).1.instant
                  (rpc.string (pos r))
                  full_tx))
        × Agrees s (get_block_by_number c rpc rpc.finalized_block_number full_tx w).1.provider
  unfolding get_block_by_number ◌>>=◌ wrapping
  get_block_by_number-IsNewest s w n q full_tx stable distinct h answer small ahead decided start
        gaps =
      let (r, found, newest, agrees) =
        query_finalized_block-IsNewest c s w n q stable distinct h answer small ahead decided start
          gaps in
      let same : (rpc.finalized_block_number == rpc.finalized_block_number) ≡ true =
        (same_integer_iff rpc.finalized_block_number rpc.finalized_block_number).1 refl in
      let after =
        finalized_after full_tx (query_finalized_block_in_babylon c w).0
          (query_finalized_block_in_babylon c w).1 r found (omega arith) in
      (r, newest, rw same (rw after refl), rw same (rw after agrees))
