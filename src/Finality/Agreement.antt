-- ===== src/Finality/Agreement.antt =====
-- The caches hold nothing but what the snapshot says, and a cached read returns what it says.
use blitz.Base.{
  ℕ, ◌≡◌, refl, ap, ◌⊎◌, inl, inr, String, Bool, true, Option, some, List, [], ◌∷◌, Error, ok,
  Reply, value, received, map_err, int64, length, ltb, Comparable, nat_eq, string_eq, arith,
  Bool-cases,
}
use blitz.Base.GoMap.{GoMap, lookup, lookup-insert}
use mathlib.Core.Path.{subst}
use blitz.Exec.{modify}
use blitz.Exec.Preserves.{Preserves}
use blitz.Exec.Implements.{Implements}
use blitz.Clients.{EthBlock}
use blitz.Provider.{
  World, FinalizedStateProvider, CacheField, ask, remember, remember_in, set_last_finalized,
  cache_map_count,
}
use blitz.Finality.{query_block, trimmed}
use blitz.Finality.Reference.{Snapshot, reference_fps, reference}

-- Every entry of the map is true.
abbrev pub AllTrue : {K V : Type 0} ⦃e : Comparable K⦄ → (K → V → Type 0) → GoMap K V → Type 0
AllTrue {K} {V} T m = (k : K) (v : V) → lookup k m ≡ some v → T k v

module _ {K V : Type 0} ⦃e : Comparable K⦄ where
  lookup-remember :
      (k j : K) (u v : V) (m : GoMap K V)
      → lookup j (remember k v m) ≡ some u
      → ((k ≡ j) × (v ≡ u)) ⊎ (lookup j m ≡ some u)
  unfolding remember lookup
  lookup-remember k j u v m h = elim (Bool-cases (ltb cache_map_count (length m))) [
    | inl full ↦ ground (arith, lookup-insert k j v [], e.same_iff k j)
    | inr room ↦ ground (arith, lookup-insert k j v m, e.same_iff k j)
  ]

  pub AllTrue-remember :
      (T : K → V → Type 0) (k : K) (v : V) (m : GoMap K V)
      → AllTrue T m
      → T k v
      → AllTrue T (remember k v m)
  AllTrue-remember T k v m old new j u h = elim (lookup-remember k j u v m h) [
    | inl (same, value') ↦ subst (λ x. T x u) same (subst (T k) value' new)
    | inr before ↦ old j u before
  ]

module _ (s : Snapshot) where
  abbrev pub BlockIsTrue : ℕ → EthBlock → Type 0
  BlockIsTrue n b = s.block_by_number (int64 n) ≡ value b

  -- `hash` is that of a block of the chain only if the property holds of the block.
  abbrev OfHash : (EthBlock → Type 0) → String → Type 0
  OfHash T hash =
      (n : ℕ) (b : EthBlock) → BlockIsTrue n b → (trimmed (query_block b)).block_hash ≡ hash → T b

  abbrev pub HeightIsTrue : String → ℕ → Type 0
  HeightIsTrue hash h = OfHash (λ b. s.btc_height b.time ≡ value h) hash

  abbrev pub VotersAreTrue : String → Option (List String) → Type 0
  VotersAreTrue hash v = OfHash (λ b. s.voted (trimmed (query_block b)) ≡ value v) hash

  abbrev pub PowersAreTrue : ℕ → GoMap String ℕ → Type 0
  PowersAreTrue h m = (pks : List String) → reference_fps s ≡ ok pks → s.powers pks h ≡ value m

  abbrev pub FinalizedIsTrue : ℕ → Bool → Type 0
  FinalizedIsTrue n v = reference s n ≡ ok true

  -- An empty list is never used as a cached answer.
  abbrev pub FpsAreTrue : List String → Type 0
  FpsAreTrue [] = Unit
  FpsAreTrue (pk ∷ pks) = reference_fps s ≡ ok (pk ∷ pks)

  pub record Agrees (p : FinalizedStateProvider) : Type 0 where
    pub fps : FpsAreTrue p.all_fps_cache
    pub blocks : AllTrue BlockIsTrue p.l2_block_cache
    pub heights : AllTrue HeightIsTrue p.btcblock_height_cache
    pub votes : AllTrue VotersAreTrue p.voted_fp_pks_cache
    pub tables : AllTrue PowersAreTrue p.multi_fp_power_cache
    pub finalized : AllTrue FinalizedIsTrue p.finalized_cache

  abbrev pub Agreeing : World → Type 0
  Agreeing w = Agrees w.provider

  pub Implements-ask :
      {A : Type 0} (wrapper : Error → Error) (call : ℕ → Reply A) (r : Reply A)
      → ((t : ℕ) → call t ≡ r)
      → Implements Agreeing (ask wrapper call) (map_err wrapper (received r))
  unfolding ask
  Implements-ask wrapper call r same = record {
    returns = λ w h. ap (λ x. map_err wrapper (received x)) (same w.instant);
    keeps = λ w h. h;
  }

  pub Implements-modify :
      (f : World → World) → Preserves Agreeing (modify f) → Implements Agreeing (modify f) (ok tt)
  unfolding modify
  Implements-modify f k = record { returns = λ w h. refl; keeps = λ w h. k.after w h }

  pub Preserves-set : (n : ℕ) → Preserves Agreeing (set_last_finalized n)
  unfolding set_last_finalized modify
  Preserves-set n = record {
    after = λ w h. elim (Bool-cases (ltb w.last_finalized_height n)) [
      | inl up ↦ rw up (assumption)
      | inr stay ↦ rw stay h
    ];
  }

  module _ {K V : Type 0} ⦃e : Comparable K⦄ (field : CacheField K V) (k : K) where
    pub Implements-remember :
        (v : V)
        → Preserves Agreeing (remember_in field k v)
        → Implements Agreeing (remember_in field k v) (ok tt)
    unfolding remember_in
    Implements-remember v kv = Implements-modify _ kv
