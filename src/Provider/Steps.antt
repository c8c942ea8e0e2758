-- ===== src/Provider/Steps.antt =====
-- The single steps of finality-gadget/rpc/provider/finality_state_provider.go: its mutexes guard one
-- read or one write each, so that the steps of two queries may come in any order.
use blitz.Base.{ℕ, ◌+◌, String, true, Option, List, nat_eq, string_eq}
use blitz.Base.GoMap.{GoMap}
use blitz.Exec.{modify}
use blitz.Clients.{EthBlock}
use blitz.Provider.{
  World, set_last_finalized, remember_in, with_fps, l2_blocks, finalized_blocks, voters,
  btc_heights, earliest_heights, powers,
}
use blitz.Provider.Invariant.{IsInvariant}

-- The worlds that steps of any number of queries lead to, in any order: an external call, and one
-- for each write of the struct.
pub data Reaches (w : World) : World → Type 0 where
  here : Reaches w w
  called : (u : World) → Reaches w u → Reaches w (record u { instant = u.instant + 1 })
  raised : (u : World) (n : ℕ) → Reaches w u → Reaches w (set_last_finalized n u).1
  listed : (u : World) (pks : List String) (t : ℕ) → Reaches w u → Reaches w (with_fps pks t u)
  got_block :
      (u : World) (k : ℕ) (v : EthBlock) → Reaches w u → Reaches w (remember_in l2_blocks k v u).1
  finalized :
      (u : World) (k : ℕ) → Reaches w u → Reaches w (remember_in finalized_blocks k true u).1
  got_voters :
      (u : World) (k : String) (v : Option (List String))
      → Reaches w u
      → Reaches w (remember_in voters k v u).1
  got_height :
      (u : World) (k : String) (v : ℕ) → Reaches w u → Reaches w (remember_in btc_heights k v u).1
  got_earliest :
      (u : World) (k : String) (v : ℕ)
      → Reaches w u
      → Reaches w (remember_in earliest_heights k v u).1
  got_powers :
      (u : World) (k : ℕ) (v : GoMap String ℕ)
      → Reaches w u
      → Reaches w (remember_in powers k v u).1

-- What each single step keeps, every sequence of steps keeps.
pub Reaches-induction :
    {P : World → Type 0} → IsInvariant P → (w u : World) → Reaches w u → P w → P u
unfolding modify
Reaches-induction inv w u here h = h
Reaches-induction inv w u (called v r) h = inv.ticks v (Reaches-induction inv w v r h)
Reaches-induction inv w u (raised v n r) h = (inv.heights n).after v (Reaches-induction inv w v r h)
Reaches-induction inv w u (listed v pks t r) h =
    (inv.fps pks t).after v (Reaches-induction inv w v r h)
Reaches-induction inv w u (got_block v k x r) h =
    (inv.blocks k x).after v (Reaches-induction inv w v r h)
Reaches-induction inv w u (finalized v k r) h =
    (inv.finalized k).after v (Reaches-induction inv w v r h)
Reaches-induction inv w u (got_voters v k x r) h =
    (inv.votes k x).after v (Reaches-induction inv w v r h)
Reaches-induction inv w u (got_height v k x r) h =
    (inv.times k x).after v (Reaches-induction inv w v r h)
Reaches-induction inv w u (got_earliest v k x r) h =
    (inv.earliest k x).after v (Reaches-induction inv w v r h)
Reaches-induction inv w u (got_powers v k x r) h =
    (inv.tables k x).after v (Reaches-induction inv w v r h)

-- What can be reached stays so under one more step.
pub Reaches-IsInvariant : (w : World) → IsInvariant (Reaches w)
unfolding modify
Reaches-IsInvariant w = record {
  ticks = called;
  heights = λ n. record { after = λ u r. raised u n r };
  fps = λ pks t. record { after = λ u r. listed u pks t r };
  blocks = λ k v. record { after = λ u r. got_block u k v r };
  finalized = λ k. record { after = λ u r. finalized u k r };
  votes = λ k v. record { after = λ u r. got_voters u k v r };
  times = λ k v. record { after = λ u r. got_height u k v r };
  earliest = λ k v. record { after = λ u r. got_earliest u k v r };
  tables = λ k v. record { after = λ u r. got_powers u k v r };
}
