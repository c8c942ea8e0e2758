-- ===== src/Concurrent/Quiet.antt =====
-- No section of the query of a block of finality-gadget/rpc/provider touches `lastFinalizedHeight`.
use blitz.Base.{◌≤◌, arith, ◌≡◌, refl, String, List, [], ◌∷◌, nat_eq, string_eq}
use blitz.Exec.{gets, modify, pure, ◌>>=◌}
use blitz.Clients.{Clients}
use blitz.Provider.{World, remember_in, fresh_fps, current_time}
use blitz.Concurrent.{read_fps, write_fps}
use blitz.Concurrent.Listing.{Covers}

-- A section that leaves `lastFinalizedHeight`, and in which the time goes on, if at all.
abbrev pub IsQuiet : (World → World) → Type 0
IsQuiet g =
    (w : World)
    → ((g w).last_finalized_height ≡ w.last_finalized_height) × (w.instant ≤ (g w).instant)

module _ (c : Clients) where
  fresh_fps-IsQuiet : (pks : List String) → IsQuiet (λ w. (fresh_fps c pks w).1)
  unfolding fresh_fps pure gets current_time ◌>>=◌
  fresh_fps-IsQuiet [] w = (refl, omega arith)
  fresh_fps-IsQuiet (pk ∷ pks) w = (refl, omega arith)

  read-IsQuiet : IsQuiet (λ w. (read_fps c w).1)
  unfolding read_fps
  read-IsQuiet w = fresh_fps-IsQuiet w.all_fps_cache w

  write-IsQuiet : (pks : List String) → IsQuiet (λ w. (write_fps c pks w).1)
  unfolding write_fps current_time modify ◌>>=◌
  write-IsQuiet pks w = (refl, omega arith)

pub IsQuiet-Covers : Covers IsQuiet
unfolding remember_in modify
IsQuiet-Covers = record {
  stays = λ w. (refl, omega arith);
  ticks = λ w. (refl, omega arith);
  reads = read-IsQuiet;
  writes = write-IsQuiet;
  blocks = λ k v w. (refl, omega arith);
  finalized = λ k w. (refl, omega arith);
  votes = λ k v w. (refl, omega arith);
  times = λ k v w. (refl, omega arith);
  tables = λ k v w. (refl, omega arith);
}
