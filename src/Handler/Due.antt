-- ===== src/Handler/Due.antt =====
-- Which numbers `fetchBlocks` of finality-gadget/operator/block_handler.go hands on, over any number of ticks.
use blitz.Base.{
  ℕ, zero, suc, ◌+◌, ◌-◌, ◌^◌, ◌≤◌, ◌<◌, ◌≡◌, ◌∙◌, ap, List, [], ◌∷◌, ◌++◌, arith, if◌then◌else◌,
}
use blitz.Handler.{HandlerWorld, is_skipped}

abbrev one_due : ℕ → ℕ → List ℕ
one_due interval i = if is_skipped interval i then [] else i ∷ []

-- The numbers among the `n` ones from `lo` on that are not skipped, in order.
abbrev pub due : ℕ → ℕ → ℕ → List ℕ
due interval lo zero = []
due interval lo (suc n) = due interval lo n ++ one_due interval (lo + n)

pub due-step :
    (interval lo i : ℕ)
    → lo ≤ i
    → due interval lo (i + 1 - lo) ≡ due interval lo (i - lo) ++ one_due interval i
due-step interval lo i le =
    let e : i + 1 - lo ≡ suc (i - lo) = omega arith in
    let f : lo + (i - lo) ≡ i = omega arith in rw (e, f)

-- From the block after `first` up to the latest one processed, `handled` got what is due, behind
-- what it held before.
pub record IsExact (interval first : ℕ) (before : List ℕ) (w : HandlerWorld) : Type 0 where
  pub setting : w.block_interval ≡ interval
  pub started : first ≤ w.latest_block_number
  pub small : w.latest_block_number < 2 ^ 64
  pub exact : w.handled ≡ before ++ due interval (first + 1) (w.latest_block_number - first)

module _ (interval first : ℕ) (before : List ℕ) where
  -- The same when the loop stands at `i`: no number between the latest one and `i` is due.
  pub record At (i : ℕ) (w : HandlerWorld) : Type 0 where
    pub setting : w.block_interval ≡ interval
    pub started : first ≤ w.latest_block_number
    pub passed : w.latest_block_number < i
    pub small : i ≤ 2 ^ 64
    pub exact : w.handled ≡ before ++ due interval (first + 1) (i - (first + 1))
    pub quiet :
        due interval (first + 1) (i - (first + 1))
        ≡ due interval (first + 1) (w.latest_block_number - first)

  abbrev pub Exact : HandlerWorld → Type 0
  Exact = IsExact interval first before

  pub At-IsExact : {i : ℕ} (w : HandlerWorld) → At i w → Exact w
  At-IsExact w h = record {
    setting = h.setting;
    started = h.started;
    small = omega arith;
    exact = h.exact ∙ ap (λ l. before ++ l) h.quiet;
  }

  -- After `handleBlock` for `i`, before the latest number is set.
  pub record Handled (i : ℕ) (w : HandlerWorld) : Type 0 where
    pub setting : w.block_interval ≡ interval
    pub started : first < i
    pub small : i < 2 ^ 64
    pub exact : w.handled ≡ before ++ due interval (first + 1) (i - first)

  pub Exact-later : (w : HandlerWorld) → Exact w → Exact (record w { instant = w.instant + 1 })
  Exact-later w h = assumption
