-- ===== src/Tests/Servers.antt =====
-- The handler of finality-gadget/rpc/rpc.go on the small world.
use blitz.Base.{
  ℕ, List, [], ◌∷◌, Bool, ◌≤◌, ◌≡◌, refl, String, true, false, ok, value, received, ℤ, pos, negsuc,
  leb, integer_eq, arith,
}
use blitz.Provider.{World}
use blitz.Provider.Bounds.{IsBounded}
use blitz.Finality.{query_finalized_block_in_babylon_by_number}
use blitz.Finality.Newest.{IsNewest}
use blitz.Finality.Reference.{reference}
use blitz.Finality.Agreement.{Agrees}
use blitz.Rpc.{EthRpc, init, call_by_number, get_block_by_number}
use blitz.Rpc.Answers.{get_block_by_number-IsNewest}
use blitz.Rpc.Sessions.{Serves, idle, started, requested, Serves-grows, Serves-reference}
use blitz.Rpc.Serving.{HttpStack, ServerWorld, start_server}
use blitz.Rpc.Serving.Endings.{IsShut, start_server-IsShut}
use blitz.Tests.Chain.{
  name, chain, clients, world, clients-IsStable, chain-DistinctHashes, reference-chain,
}
use blitz.Tests.Queries.{program, no_gaps, world-Agrees}

-- A node that answers with the number it is asked for.
abbrev text : ℤ → String
text (pos n) = name n
text (negsuc n) = "mark"

abbrev pub node : EthRpc
node = record {
  Raw = String;
  finalized_block_number = negsuc 2;
  string = text;
  call_context = λ t number full_tx. value number;
}

finalized_is_3 : (get_block_by_number clients node (negsuc 2) true world).0 ≡ ok (name 3)
unfolding program call_by_number get_block_by_number
finalized_is_3 = refl

abbrev after_init : World
after_init = (init clients node world).1

abbrev served : World
served = (get_block_by_number clients node (negsuc 2) false after_init).1

session : Serves clients node world served
session = requested after_init (negsuc 2) false (started world idle)

passes_on : (get_block_by_number clients node (pos 2) true world).0 ≡ ok (name 2)
unfolding program call_by_number get_block_by_number
passes_on = refl

get_block_by_number-IsNewest_example :
    (r : ℕ) × IsNewest (λ h. leb h 3) 1 5 r
    × ((get_block_by_number clients node (negsuc 2) true world).0 ≡ received (value (name r)))
    × Agrees chain (get_block_by_number clients node (negsuc 2) true world).1.provider
get_block_by_number-IsNewest_example =
    get_block_by_number-IsNewest clients node chain world 5 (λ h. leb h 3) true clients-IsStable
      chain-DistinctHashes world-Agrees refl (omega arith) (omega arith) reference-chain refl
      no_gaps

Serves-grows_example : (0 ≤ served.last_finalized_height) × IsBounded served.provider
Serves-grows_example = Serves-grows clients node world served session (omega arith)

Serves-reference_example :
    Agrees chain served.provider
    × ((query_finalized_block_in_babylon_by_number clients 4 served).0 ≡ reference chain 4)
Serves-reference_example =
    Serves-reference clients node chain 0 served 4 clients-IsStable chain-DistinctHashes session

abbrev stack : HttpStack
stack = record { register_apis = value tt; start_http_endpoint = λ addr. value addr }

abbrev idle_server : ServerWorld
idle_server = record { gadget = world; endpoints = 0; wg = 0; id = 0 }

abbrev requests : List (ℤ × Bool)
requests = (negsuc 2, false) ∷ (pos 2, true) ∷ []

start_server-IsShut_example :
    IsShut clients node
      (value tt)
      (value ":8080")
      requests
      idle_server
      (start_server clients node stack ":8080" requests idle_server).0
      (start_server clients node stack ":8080" requests idle_server).1
start_server-IsShut_example =
    start_server-IsShut clients node stack ":8080" requests idle_server (omega arith)
