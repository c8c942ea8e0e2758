-- ===== src/Finality/Newest.antt =====
-- What the search for the newest finalized block promises, when the question "is block h finalized"
-- has one answer for each h.
use blitz.Base.{ℕ, ◌+◌, ◌≤◌, ◌<◌, ◌≡◌, ◌⊎◌, Bool, true, false}

-- `r` is where the answers turn: it is the start or has the answer yes, and it is the last number
-- before `to` or its successor has the answer no.
pub record IsTurn (q : ℕ → Bool) (from to r : ℕ) : Type 0 where
  pub above : from ≤ r
  pub below : r < to
  pub holds : (r ≡ from) ⊎ (q r ≡ true)
  pub stops : (r + 1 ≡ to) ⊎ (q (r + 1) ≡ false)

-- `r` is the newest block below `n` for which the answer is yes.
pub record IsNewest (q : ℕ → Bool) (from n r : ℕ) : Type 0 where
  pub above : from ≤ r
  pub below : r < n
  pub holds : q r ≡ true
  pub none_later : (h : ℕ) → r < h → h < n → q h ≡ false

-- Finality has no gaps: below a block with the answer yes, down to `from`, all have it.
abbrev pub NoGaps : (ℕ → Bool) → ℕ → ℕ → Type 0
NoGaps q from n = (h : ℕ) → from ≤ h → h + 1 < n → q (h + 1) ≡ true → q h ≡ true
