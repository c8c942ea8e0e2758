-- ===== src/Tests/Chain.antt =====
-- A small world for finality-gadget/rpc/provider: two finality providers with powers 2 and 1, of
-- which the first has voted for the blocks up to 3. The head of L2 is block 5.
use blitz.Base.{
  ℕ, zero, suc, ◌*◌, ◌^◌, ◌≤◌, ◌<◌, ◌≡◌, refl, ap, sym, ◌∙◌, String, true, false, some, [], ◌∷◌, ok,
  value, fails, Reply, ℤ, pos, negsuc, int64, leb, ltb, arith, Bool-cases, inl, inr, string_eq,
  if◌then◌else◌,
}
use blitz.Base.GoMap.{lookup}
use blitz.Base.GoText.{trim_prefix}
use blitz.Clients.{EthBlock, Clients}
use blitz.Quorum.{total_power, voted_power, has_quorum}
use blitz.Provider.{World, new_finalized_state_provider}
use blitz.Finality.Reference.{Snapshot, IsStable, DistinctHashes, reference}

-- One hash for each number.
unfoldable pub name : ℕ → String
name zero = ""
name (suc n) = String.◌∷◌ "a" (name n)

abbrev pub block : ℕ → EthBlock
block n = record { hash = String.◌∷◌ "0" (String.◌∷◌ "x" (name n)); time = 10 * n; number = n }

abbrev pub block_at : ℤ → Reply EthBlock
block_at (pos n) = value (block n)
block_at (negsuc n) = fails "not found"

abbrev pub chain : Snapshot
chain = record {
  block_by_number = block_at;
  btc_height = λ time. value 100;
  consumer_id = value "consumer";
  fp_pks = λ id. value ("fp1" ∷ "fp2" ∷ []);
  powers = λ pks height. value (("fp1", 2) ∷ ("fp2", 1) ∷ []);
  voted = λ b. value (if leb b.block_height 3 then some ("fp1" ∷ []) else some ("fp2" ∷ []));
}

abbrev pub clients : Clients
clients = record {
  block_number = λ t. value 5;
  block_by_number = λ t n. chain.block_by_number n;
  get_block_height_by_timestamp = λ t time. chain.btc_height time;
  query_consumer_id = λ t. chain.consumer_id;
  query_all_fp_btc_pub_keys = λ t id. chain.fp_pks id;
  query_multi_fp_power = λ t pks height. chain.powers pks height;
  query_earliest_active_del_btc_height = λ t pks. value 90;
  query_list_of_voted_finality_providers = λ t b. chain.voted b;
  now = λ t. t;
}

abbrev pub world : World
world = record { provider = new_finalized_state_provider; instant = 0 }

pub clients-IsStable : IsStable clients chain
clients-IsStable = record {
  block_by_number = λ t n. refl;
  btc_height = λ t n. refl;
  consumer_id = λ t. refl;
  fp_pks = λ t id. refl;
  powers = λ t pks h. refl;
  voted = λ t b. refl;
}

name-injective : (n m : ℕ) → name n ≡ name m → n ≡ m
unfolding name
name-injective zero zero e = refl
name-injective zero (suc m) e = cc
name-injective (suc n) zero e = cc
name-injective (suc n) (suc m) e = ap suc (name-injective n m (ground arith))

block_at-small :
    (n : ℕ) (a : EthBlock) → ltb n (2 ^ 63) ≡ true → block_at (int64 n) ≡ value a → a ≡ block n
block_at-small n a small e = let found : value (block n) ≡ value a = rw small at e in cc

block_at-large :
    (n : ℕ) (a : EthBlock) → ltb n (2 ^ 63) ≡ false → block_at (int64 n) ≡ value a → a ≡ block n
block_at-large n a large e = let missing : fails "not found" ≡ value a = rw large at e in cc

block_at-int64 : (n : ℕ) (a : EthBlock) → block_at (int64 n) ≡ value a → a ≡ block n
block_at-int64 n a e = elim (Bool-cases (ltb n (2 ^ 63))) [
  | inl small ↦ block_at-small n a small e
  | inr large ↦ block_at-large n a large e
]

trim-block : (n : ℕ) → trim_prefix (block n).hash "0x" ≡ name n
unfolding trim_prefix
trim-block n = refl

pub chain-DistinctHashes : DistinctHashes chain
chain-DistinctHashes n m a b at_n at_m same =
    let a_is = block_at-int64 n a at_n in
    let b_is = block_at-int64 m b at_m in
    let names : name n ≡ name m = cc (
      trim-block n,
      trim-block m,
      ap (λ x. trim_prefix x.hash "0x") a_is,
      ap (λ x. trim_prefix x.hash "0x") b_is,
      same,
    ) in
    a_is ∙ ap block (name-injective n m names) ∙ sym b_is

pub reference-chain_small : (h : ℕ) → h < 2 ^ 63 → reference chain h ≡ ok (leb h 3)
unfolding reference total_power voted_power has_quorum lookup
reference-chain_small h lt =
    let small : ltb h (2 ^ 63) ≡ true = ground arith in
    rw small (elim (Bool-cases (leb h 3)) [ inl early ↦ rw early refl | inr late ↦ rw late refl ])

pub reference-chain : (h : ℕ) → h ≤ 5 → reference chain h ≡ ok (leb h 3)
reference-chain h le = reference-chain_small h (omega arith)
