-- ===== src/Provider/Repeats.antt =====
-- What the caches of finality-gadget/rpc/provider/finality_state_provider.go answer once they hold
-- an answer.
use blitz.Base.{
  ℕ, ◌≡◌, refl, ap, ◌∙◌, String, Option, none, some, List, [], Error, ok, err, client, Reply, value,
  fails, ltb, length, Comparable, nat_eq, string_eq, if◌then◌else◌, wrap, arith,
}
use blitz.Base.GoMap.{GoMap, lookup, lookup-insert}
use blitz.Exec.{pure, gets, modify, ◌>>=◌}
use blitz.Clients.{Block, Clients}
use blitz.Provider.{
  World, FinalizedStateProvider, CacheField, ask, cache_map_count, remember, remember_in,
  read_through, cached, voters, powers, query_list_of_voted_finality_providers,
  query_multi_fp_power,
}

module _ {K V : Type 0} ⦃e : Comparable K⦄ where
  lookup-remember : (k : K) (v : V) (m : GoMap K V) → lookup k (remember k v m) ≡ some v
  unfolding remember
  lookup-remember k v m =
      lookup-insert k k v (if ltb cache_map_count (length m) then [] else m)
      ∙ rw ((e.same_iff k k).1 refl) refl

  module _ (field : CacheField K V)
      (read_write : (p : FinalizedStateProvider) (m : GoMap K V)
        → field.read (field.write p m) ≡ m) where
    -- An entry answers without a call.
    cached-hit :
        (k : K) (wrapper : Error → Error) (call : ℕ → Reply V) (w : World) (v : V)
        → lookup k (field.read w.provider) ≡ some v
        → cached field k wrapper call w ≡ (ok v, w)
    unfolding cached read_through gets pure ◌>>=◌
    cached-hit k wrapper call w v h = rw h refl

    miss :
        (k : K) (wrapper : Error → Error) (call : ℕ → Reply V) (w : World) (v : V) (r : Reply V)
        → call w.instant ≡ r
        → (read_through field k wrapper call none w).0 ≡ ok v
        → lookup k (field.read (read_through field k wrapper call none w).1.provider) ≡ some v
    unfolding read_through remember_in ask modify pure ◌>>=◌
    miss k wrapper call w v (fails m) q h =
        let failed : err (wrapper (client m)) ≡ ok v = rw q at h in ground arith
    miss k wrapper call w v (value x) q h =
        let answered : ok x ≡ ok v = rw q at h in
        let same : x ≡ v = cc in
        let stored = lookup-remember k x (field.read w.provider) in
        rw q (
          rw (read_write w.provider (remember k x (field.read w.provider))) (stored ∙ ap some same))

    hit :
        (k : K) (wrapper : Error → Error) (call : ℕ → Reply V) (w : World) (v x : V)
        → lookup k (field.read w.provider) ≡ some x
        → (read_through field k wrapper call (some x) w).0 ≡ ok v
        → lookup k (field.read (read_through field k wrapper call (some x) w).1.provider) ≡ some v
    unfolding read_through pure
    hit k wrapper call w v x q h = let same : ok x ≡ ok v = h in q ∙ cc

    stores :
        (k : K) (wrapper : Error → Error) (call : ℕ → Reply V) (w : World) (v : V) (hit : Option V)
        → lookup k (field.read w.provider) ≡ hit
        → (read_through field k wrapper call hit w).0 ≡ ok v
        → lookup k (field.read (read_through field k wrapper call hit w).1.provider) ≡ some v
    stores k wrapper call w v none q h = miss k wrapper call w v (call w.instant) refl h
    stores k wrapper call w v (some x) q h = hit k wrapper call w v x q h

    cached-stores :
        (k : K) (wrapper : Error → Error) (call : ℕ → Reply V) (w : World) (v : V)
        → (cached field k wrapper call w).0 ≡ ok v
        → lookup k (field.read (cached field k wrapper call w).1.provider) ≡ some v
    unfolding cached gets ◌>>=◌
    cached-stores k wrapper call w v h = stores k wrapper call w v _ refl h

    -- A value that a cached read returned is returned again, whatever the next call would answer.
    cached-repeats :
        (k : K) (first second : Error → Error) (call other : ℕ → Reply V) (w : World) (v : V)
        → (cached field k first call w).0 ≡ ok v
        → cached field k second other (cached field k first call w).1
          ≡ (ok v, (cached field k first call w).1)
    cached-repeats k first second call other w v h =
        cached-hit k second other (cached field k first call w).1 v
          (cached-stores k first call w v h)

-- Once Babylon has answered with the voters of a block, the same voters are answered for its hash,
-- whatever Babylon says by then, and no call is made.
pub query_list_of_voted-repeats :
    (c later : Clients) (block : Block) (w : World) (v : Option (List String))
    → (query_list_of_voted_finality_providers c block w).0 ≡ ok v
    → query_list_of_voted_finality_providers later block
        (query_list_of_voted_finality_providers c block w).1
      ≡ (ok v, (query_list_of_voted_finality_providers c block w).1)
unfolding query_list_of_voted_finality_providers
query_list_of_voted-repeats c later block w v h =
    cached-repeats voters (λ p m. refl) block.block_hash (λ e. e) (λ e. e) _ _ w v h

-- Once the powers at a Bitcoin height have been answered for one list of finality providers, the
-- same table is answered at that height for every list.
pub query_multi_fp_power-repeats :
    (c later : Clients) (pks others : List String) (height : ℕ) (w : World) (v : GoMap String ℕ)
    → (query_multi_fp_power c pks height w).0 ≡ ok v
    → query_multi_fp_power later others height (query_multi_fp_power c pks height w).1
      ≡ (ok v, (query_multi_fp_power c pks height w).1)
unfolding query_multi_fp_power
query_multi_fp_power-repeats c later pks others height w v h =
    cached-repeats powers (λ p m. refl) height (wrap "QueryMultiFpPower") (wrap "QueryMultiFpPower")
      _ _ w v h
