-- ===== src/Concurrent/Search.antt =====
-- The search for the newest finalized block (finality_state_provider.go) as several goroutines run
-- it at once.
use blitz.Base.{
  ℕ, zero, suc, ◌+◌, ◌-◌, ◌/◌, Bool, false, ◌&&◌, wrap, wrapf, out_of_fuel, u64, ltb, ◌==◌, nat_eq,
  if◌then◌else◌,
}
use blitz.Clients.{Clients}
use blitz.Provider.{World, ask, get_last_finalized, set_last_finalized}
use blitz.Finality.{fast_check_number_count, search_fuel, sub64, is_true}
use blitz.Threads.{Steps, answer, abort, locked, wrapping, recover, ◌>>=◌, ◌>>◌}
use blitz.Concurrent.{by_number_steps}

module _ (c : Clients) where
  abbrev pub checked_steps : ℕ → Steps World Bool
  checked_steps height =
      wrapping (wrapf "queryFinalizedBlockInBabylonByNumber failed: %v" height)
        (by_number_steps c height)

  unfoldable pub search_between_steps : (ℕ → ℕ → Steps World ℕ) → ℕ → ℕ → Steps World ℕ
  search_between_steps again from to =
      if from == to
      then answer to
      else if u64 (from + 1) == to
      then answer from
      else let check = u64 (from + to + 1) / 2 in
        do
          is_finalized ← checked_steps check
          if is_finalized
              then (do locked (set_last_finalized (sub64 check 1)); again check to)
              else again from check

  unfoldable pub from_to_steps : ℕ → ℕ → ℕ → Steps World ℕ
  from_to_steps zero from to = abort out_of_fuel
  from_to_steps (suc fuel) from to =
      let again = from_to_steps fuel in
      if ltb to from then search_between_steps again to from else search_between_steps again from to

  unfoldable pub check_newest_steps : ℕ → Steps World Bool
  check_newest_steps current_number =
      if ltb 1 current_number
      then (do res ← recover (by_number_steps c (current_number - 1)); answer (is_true res))
      else answer false

  unfoldable pub fast_forward_steps : ℕ → ℕ → Steps World ℕ
  fast_forward_steps current_number from_block_height =
      let check_number = current_number - fast_check_number_count in
      if ltb fast_check_number_count current_number && ltb from_block_height check_number
      then (do
        is_finalized ← checked_steps check_number
        answer (if is_finalized then check_number else from_block_height))
      else answer from_block_height

  unfoldable pub try_next_steps : ℕ → ℕ → Steps World ℕ
  try_next_steps current_number from_block_height =
      let try_end_block_height = u64 (from_block_height + 1) in
      if ltb try_end_block_height current_number
      then (do
        is_finalized ← checked_steps try_end_block_height
        answer (if is_finalized then try_end_block_height else from_block_height))
      else answer from_block_height

  unfoldable pub search_from_steps : ℕ → ℕ → Steps World ℕ
  search_from_steps current_number from_block_height =
      if u64 (from_block_height + 1) == current_number
      then (do
        is_finalized ← checked_steps current_number
        answer (if is_finalized then current_number else from_block_height))
      else (do
        from ← try_next_steps current_number from_block_height
        res ← from_to_steps search_fuel from current_number
        locked (set_last_finalized res)
        answer res)

  unfoldable pub query_above_steps : ℕ → ℕ → Steps World ℕ
  query_above_steps current_number from_block_height =
      if current_number == from_block_height then answer current_number else (do
        newest ← check_newest_steps current_number
        if newest then answer (current_number - 1) else (do
          from ← fast_forward_steps current_number from_block_height
          search_from_steps current_number from))

  unfoldable pub query_finalized_block_steps : Steps World ℕ
  query_finalized_block_steps = do
    current_number ← locked (ask (wrap "failed to got blockNumber") c.block_number)
    last ← locked get_last_finalized
    query_above_steps current_number (if last == 0 then 1 else last)
