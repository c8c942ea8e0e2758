-- ===== src/Finality/Invariant.antt =====
-- What every single write of the provider keeps, every query of
-- finality-gadget/rpc/provider/finality_state_provider.go keeps, errors included.
use blitz.Base.{ℕ, zero, suc, ◌+◌, Bool, true, false, Option, none, some, ltb, Error, Reply}
use blitz.Base.GoMap.{GoMap}
use blitz.Exec.{Exec}
use blitz.Exec.Preserves.{Preserves, Preserves-if, preserve_rules}
use blitz.Clients.{Block, Clients}
use blitz.Provider.{World, get_last_finalized, set_last_finalized, ask}
use blitz.Provider.Invariant.{
  IsInvariant, Preserves-block_by_number, Preserves-query_list_of_voted_finality_providers,
  Preserves-query_all_pk_power,
}
use blitz.Finality.{
  tally, query_is_block_babylon_finalized_from_babylon, store_finalized, check_finalized,
  query_finalized_block_in_babylon_by_number, search_between,
  query_finalized_block_in_babylon_from_to, check_newest, fast_forward, try_next, search_from,
  query_above, query_finalized_block_in_babylon,
}
use Prim.Native.String.{String}

module _ {P : World → Type 0} (inv : IsInvariant P) (c : Clients) where
  Preserves-tally : (b : Block) (m : GoMap String ℕ) → Preserves P (tally c b m)
  unfolding tally
  Preserves-tally b m =
      search (preserve_rules, Preserves-query_list_of_voted_finality_providers inv c) depth 10

  pub Preserves-query_is_block :
      (b : Option Block) → Preserves P (query_is_block_babylon_finalized_from_babylon c b)
  unfolding query_is_block_babylon_finalized_from_babylon
  Preserves-query_is_block none = search preserve_rules
  Preserves-query_is_block (some b) =
      search (preserve_rules, Preserves-query_all_pk_power inv c, Preserves-tally) depth 10

  Preserves-store_finalized : (h : ℕ) (f : Bool) → Preserves P (store_finalized c h f)
  unfolding store_finalized
  Preserves-store_finalized h true = search (preserve_rules, inv.finalized)
  Preserves-store_finalized h false = search preserve_rules

  Preserves-check_finalized : (h : ℕ) (hit : Option Bool) → Preserves P (check_finalized c h hit)
  unfolding check_finalized
  Preserves-check_finalized h (some _) = search preserve_rules
  Preserves-check_finalized h none =
      search
        (
          preserve_rules,
          Preserves-block_by_number inv c,
          Preserves-query_is_block,
          Preserves-store_finalized,
        )
        depth 10

  pub Preserves-by_number : (h : ℕ) → Preserves P (query_finalized_block_in_babylon_by_number c h)
  unfolding query_finalized_block_in_babylon_by_number
  Preserves-by_number h = search (preserve_rules, Preserves-check_finalized)

-- The search needs no more of a condition than that these three keep it.
module _ {P : World → Type 0} (c : Clients)
    (ticks : (w : World) → P w → P (record w { instant = w.instant + 1 }))
    (heights : (n : ℕ) → Preserves P (set_last_finalized n))
    (by_number : (h : ℕ) → Preserves P (query_finalized_block_in_babylon_by_number c h)) where
  Preserves-search_between :
      (again : ℕ → ℕ → Exec World ℕ) (from to : ℕ)
      → ((a b : ℕ) → Preserves P (again a b))
      → Preserves P (search_between c again from to)
  unfolding search_between
  Preserves-search_between again from to rec = search (preserve_rules, by_number, heights) depth 14

  Preserves-from_to :
      (fuel from to : ℕ) → Preserves P (query_finalized_block_in_babylon_from_to c fuel from to)
  unfolding query_finalized_block_in_babylon_from_to
  Preserves-from_to zero from to = search preserve_rules
  Preserves-from_to (suc fuel) from to =
      Preserves-if (ltb to from) _ _ (Preserves-search_between _ to from (Preserves-from_to fuel))
        (Preserves-search_between _ from to (Preserves-from_to fuel))

  Preserves-check_newest : (n : ℕ) → Preserves P (check_newest c n)
  unfolding check_newest
  Preserves-check_newest n = search (preserve_rules, by_number) depth 10

  Preserves-fast_forward : (n from : ℕ) → Preserves P (fast_forward c n from)
  unfolding fast_forward
  Preserves-fast_forward n from = search (preserve_rules, by_number) depth 10

  Preserves-try_next : (n from : ℕ) → Preserves P (try_next c n from)
  unfolding try_next
  Preserves-try_next n from = search (preserve_rules, by_number) depth 10

  Preserves-search_from : (n from : ℕ) → Preserves P (search_from c n from)
  unfolding search_from
  Preserves-search_from n from =
      search (preserve_rules, by_number, Preserves-try_next, Preserves-from_to, heights) depth 14

  Preserves-query_above : (n from : ℕ) → Preserves P (query_above c n from)
  unfolding query_above
  Preserves-query_above n from =
      search (preserve_rules, Preserves-check_newest, Preserves-fast_forward, Preserves-search_from)
        depth 14

  asks :
      {A : Type 0} (wrapper : Error → Error) (call : ℕ → Reply A) → Preserves P (ask wrapper call)
  unfolding ask
  asks wrapper call = record { after = λ w h. ticks w h }

  pub Preserves-query_searching : Preserves P (query_finalized_block_in_babylon c)
  unfolding query_finalized_block_in_babylon get_last_finalized
  Preserves-query_searching = search (preserve_rules, asks, Preserves-query_above) depth 10

pub Preserves-query_finalized_block :
    {P : World → Type 0}
    → IsInvariant P
    → (c : Clients) → Preserves P (query_finalized_block_in_babylon c)
Preserves-query_finalized_block inv c =
    Preserves-query_searching c inv.ticks inv.heights (Preserves-by_number inv c)
