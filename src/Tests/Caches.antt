-- ===== src/Tests/Caches.antt =====
-- Answers of Babylon that change after finality-gadget/rpc/provider has cached the first one.
use blitz.Base.{
  ◌≤◌, arith, ℕ, ◌≡◌, refl, String, Option, some, List, [], ◌∷◌, ok, value, string_eq, nat_eq,
}
use blitz.Base.GoMap.{GoMap}
use blitz.Clients.{Block, Clients}
use blitz.Provider.{
  World, set_last_finalized, query_list_of_voted_finality_providers, query_multi_fp_power,
}
use blitz.Provider.Repeats.{query_list_of_voted-repeats, query_multi_fp_power-repeats}
use blitz.Provider.Bounds.{IsBounded}
use blitz.Provider.Steps.{Reaches, here, raised}
use blitz.Finality.{query_finalized_block_in_babylon, query_finalized_block_in_babylon_by_number}
use blitz.Finality.Interleaving.{queries-Reaches, Reaches-grows}
use blitz.Tests.Chain.{clients, world}
use blitz.Tests.Queries.{program}

-- Babylon has more votes, and other powers, than before.
abbrev later : Clients
later = record clients {
  query_list_of_voted_finality_providers = λ t b. value (some ("fp1" ∷ "fp2" ∷ []));
  query_multi_fp_power = λ t pks height. value (("fp3", 5) ∷ []);
}

abbrev block : Block
block = record { block_hash = "aa"; block_height = 4; block_timestamp = 0 }

abbrev one_voter : Option (List String)
one_voter = some ("fp2" ∷ [])

abbrev table : GoMap String ℕ
table = ("fp1", 2) ∷ ("fp2", 1) ∷ []

first_voters : (query_list_of_voted_finality_providers clients block world).0 ≡ ok one_voter
unfolding program
first_voters = refl

first_table : (query_multi_fp_power clients [] 100 world).0 ≡ ok table
unfolding program
first_table = refl

query_list_of_voted-repeats_example :
    query_list_of_voted_finality_providers later block
      (query_list_of_voted_finality_providers clients block world).1
    ≡ (ok one_voter, (query_list_of_voted_finality_providers clients block world).1)
query_list_of_voted-repeats_example =
    query_list_of_voted-repeats clients later block world one_voter first_voters

query_multi_fp_power-repeats_example :
    query_multi_fp_power later ("fp3" ∷ []) 100 (query_multi_fp_power clients [] 100 world).1
    ≡ (ok table, (query_multi_fp_power clients [] 100 world).1)
query_multi_fp_power-repeats_example =
    query_multi_fp_power-repeats clients later [] ("fp3" ∷ []) 100 world table first_table

-- One query ends while a write of another one comes in between.
abbrev mixed : World
mixed = (set_last_finalized 2 (query_finalized_block_in_babylon clients world).1).1

mixed-Reaches : Reaches world mixed
mixed-Reaches =
    raised (query_finalized_block_in_babylon clients world).1 2
      (queries-Reaches clients world world 4 here).0

mixed_once_more :
    Reaches world (query_finalized_block_in_babylon clients mixed).1
    × Reaches world (query_finalized_block_in_babylon_by_number clients 4 mixed).1
mixed_once_more = queries-Reaches clients world mixed 4 mixed-Reaches

mixed-IsBounded : (0 ≤ mixed.last_finalized_height) × IsBounded mixed.provider
mixed-IsBounded = Reaches-grows world mixed mixed-Reaches (omega arith)
