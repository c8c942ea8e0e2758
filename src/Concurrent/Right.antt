-- ===== src/Concurrent/Right.antt =====
-- What `lastFinalizedHeight` (finality-gadget/rpc/provider) may hold while several goroutines search.
use blitz.Base.{
  ℕ, zero, suc, ◌+◌, ◌-◌, ◌^◌, ◌≤◌, ◌<◌, ◌≡◌, inl, inr, Bool, true, false, ltb, ◌==◌, nat_eq, ok,
  arith, Bool-cases, if◌then◌else◌,
}
use blitz.Exec.{modify}
use blitz.Exec.Preserves.{Preserves}
use blitz.Clients.{Clients}
use blitz.Provider.{World, FinalizedStateProvider, raise_last_finalized, set_last_finalized}
use blitz.Finality.Reference.{Snapshot, IsStable, DistinctHashes, reference}
use blitz.Finality.Agreement.{Agreeing, Preserves-set}
use blitz.Threads.Guarded.{Gives}
use blitz.Threads.Sections.{Sections-Gives}
use blitz.Concurrent.{by_number_steps}
use blitz.Concurrent.Transparent.{Gives-by_number}
use blitz.Concurrent.Listing.{by_number-Sections}
use blitz.Concurrent.Quiet.{IsQuiet-Covers}

abbrev pub start : ℕ → ℕ
start last = if last == 0 then 1 else last

-- Block `r` is finalized, and no block between it and the head `n` is.
pub record IsLatest (q : ℕ → Bool) (n r : ℕ) : Type 0 where
  pub small : r < 2 ^ 63
  pub holds : q r ≡ true
  pub none_later : (h : ℕ) → r < h → h < n → q h ≡ false

-- What may stand in `lastFinalizedHeight`: the search starts from a finalized block.
pub record IsRight (q : ℕ → Bool) (last : ℕ) : Type 0 where
  pub small : start last < 2 ^ 63
  pub holds : q (start last) ≡ true

-- Every block below 2^63 is decided, and finality begins at block 1 and has no gaps.
pub record Decides (s : Snapshot) (q : ℕ → Bool) : Type 0 where
  pub decided : (h : ℕ) → h < 2 ^ 63 → reference s h ≡ ok (q h)
  pub first : q 1 ≡ true
  pub closed : (h : ℕ) → 0 < h → q (h + 1) ≡ true → q h ≡ true

-- The caches agree with the chains, and the search starts from a finalized block.
abbrev pub Fit : Snapshot → (ℕ → Bool) → World → Type 0
Fit s q w = Agreeing s w × IsRight q w.last_finalized_height

-- A number that may be written to `lastFinalizedHeight`.
abbrev pub May : (ℕ → Bool) → ℕ → Type 0
May q h = (0 < h) × (h < 2 ^ 63) × (q h ≡ true)

module _ (s : Snapshot) (q : ℕ → Bool) where
  raise-IsRight :
      (h : ℕ) (p : FinalizedStateProvider)
      → May q h
      → IsRight q p.last_finalized_height
      → IsRight q (raise_last_finalized h p).last_finalized_height
  raise-IsRight h p (pos, small, yes') right = elim (Bool-cases (ltb p.last_finalized_height h)) [
    | inl up ↦
        let e : start h ≡ h = ground arith in
        rw up (record { small = rw e small; holds = rw e yes' })
    | inr stay ↦ rw stay right
  ]

  pub Preserves-heights : (h : ℕ) → May q h → Preserves (Fit s q) (set_last_finalized h)
  unfolding set_last_finalized modify
  Preserves-heights h m = record {
    after = λ w (agrees, right).
        ((Preserves-set s h).after w agrees, raise-IsRight h w.provider m right);
  }

module _ (s : Snapshot) (q : ℕ → Bool) (d : Decides s q) where
  descends : (k h : ℕ) → 0 < h → q (h + k) ≡ true → q h ≡ true
  descends zero h pos yes' = let e : h + 0 ≡ h = omega arith in rw e at yes'
  descends (suc k) h pos yes' =
      let e : h + suc k ≡ h + k + 1 = omega arith in
      descends k h pos (d.closed (h + k) (omega arith) (rw e at yes'))

  pub below : (h k : ℕ) → 0 < h → h ≤ k → q k ≡ true → q h ≡ true
  below h k pos le yes' =
      let e : k ≡ h + (k - h) = omega arith in descends (k - h) h pos (rw e at yes')

  pub may : (h k : ℕ) → 0 < h → h ≤ k → k ≤ 2 ^ 63 - 1 → q k ≡ true → May q h
  may h k pos le small yes' = (pos, omega arith, below h k pos le yes')

  pub answers :
      (c : Clients)
      → IsStable c s
      → DistinctHashes s
      → (h : ℕ) → h ≤ 2 ^ 63 - 1
      → Gives (Fit s q) (by_number_steps c h) (ok (q h))
  answers c stable distinct h le = rw (← d.decided h (omega arith)) (
      Sections-Gives _ _ 18 _ _ (λ g quiet w right. rw (quiet w).0 right)
        (Gives-by_number s c stable distinct h) (by_number-Sections IsQuiet-Covers c h))
