-- ===== src/Fps/Outcomes.antt =====
-- When `RestoreFP` succeeds, and when it leaves the store alone (finality-gadget/operator/fp/fp.go).
use blitz.Base.{
  ℕ, ◌≡◌, refl, sym, ap, ◌∙◌, ◌↔◌, ◌⊎◌, inl, inr, String, Bool, Option, none, some, Error, ok, err,
  Reply, value, fails, arith, Option-cases,
}
use blitz.Exec.{pure, raise, wrapping, ◌>>=◌}
use blitz.Exec.Inversion.{bind-Split, wrapping-ok}
use blitz.Fps.{
  Found, found, not_found, failed, FpEnv, FinalityProviderResponse, call, commission_rates,
  create_fp, put_by, put_fp_from_response, query_response, is_stored, confirm, restore_fp,
}
use blitz.Fps.Restore.{Creates, Updates, put_fp_from_response_iff, call-ok}

module _ (e : FpEnv) (query : e.Pk → Reply (Option (FinalityProviderResponse e.Pk)))
    (power_of : e.Pk → ℕ → Reply Bool) (chain_id text : String) where
  -- The key is one, Babylon knows it, the store takes its answer, and knows the provider then.
  pub record Restores (s t : e.Store) : Type 0 where
    pub pk : e.Pk
    pub fp : FinalityProviderResponse e.Pk
    pub stored : e.Stored
    pub decodes : e.pub_key_from_hex text ≡ value pk
    pub known : query pk ≡ value (some fp)
    pub puts : Creates e query power_of fp chain_id s t ⊎ Updates e query power_of fp s t
    pub confirmed : e.get_finality_provider t pk ≡ found stored

  -- Why a restore stops before the first write.
  pub data Rejects (s : e.Store) : Type 0 where
    bad_key : (m : String) → e.pub_key_from_hex text ≡ fails m → Rejects s
    no_answer :
        (pk : e.Pk) (m : String)
        → e.pub_key_from_hex text ≡ value pk
        → query pk ≡ fails m
        → Rejects s
    nil_answer :
        (pk : e.Pk) → e.pub_key_from_hex text ≡ value pk → query pk ≡ value none → Rejects s
    bad_store :
        (pk : e.Pk) (fp : FinalityProviderResponse e.Pk) (m : String)
        → e.pub_key_from_hex text ≡ value pk
        → query pk ≡ value (some fp)
        → e.get_finality_provider s fp.btc_pk ≡ failed m
        → Rejects s
    bad_response :
        (pk : e.Pk) (fp : FinalityProviderResponse e.Pk) (m : String)
        → e.pub_key_from_hex text ≡ value pk
        → query pk ≡ value (some fp)
        → e.get_finality_provider s fp.btc_pk ≡ not_found
        → (e.acc_address_from_bech32 fp.addr ≡ fails m)
          ⊎ (fp.commission ≡ none)
          ⊎ (fp.commission_info ≡ none)
        → Rejects s

  response_of :
      (r : Reply (Option (FinalityProviderResponse e.Pk))) (fp : FinalityProviderResponse e.Pk)
      (s t : e.Store)
      → query_response e query power_of text r s ≡ (ok fp, t)
      → (r ≡ value (some fp)) × (s ≡ t)
  unfolding query_response raise pure
  response_of (fails m) fp s t h = ground arith
  response_of (value none) fp s t h = ground arith
  response_of (value (some x)) fp s t h = (cc, ap (λ p. p.1) h)

  looked_up :
      (pk : e.Pk) (s : e.Store) (f : Found e.Stored)
      → e.get_finality_provider s pk ≡ f
      → is_stored e query power_of f ≡ ok tt
      → (stored : e.Stored) × (e.get_finality_provider s pk ≡ found stored)
  looked_up pk s (found stored) q h = (stored, q)
  looked_up pk s not_found q h = ground arith
  looked_up pk s (failed m) q h = ground arith

  confirm-ok :
      (pk : e.Pk) (s t : e.Store)
      → confirm e query power_of pk s ≡ (ok tt, t)
      → ((stored : e.Stored) × (e.get_finality_provider s pk ≡ found stored)) × (s ≡ t)
  unfolding confirm
  confirm-ok pk s t h =
      (looked_up pk s (e.get_finality_provider s pk) refl (ap (λ p. p.0) h), ap (λ p. p.1) h)

  commission_rates-stops :
      (fp : FinalityProviderResponse e.Pk) (s : e.Store)
      → (fp.commission ≡ none) ⊎ (fp.commission_info ≡ none)
      → (x : Error) × (commission_rates e query power_of fp s ≡ (err x, s))
  unfolding commission_rates raise
  commission_rates-stops fp s (inl c) = rw c (_, refl)
  commission_rates-stops fp s (inr i) = elim (Option-cases fp.commission) [
    | inl c ↦ rw c (_, refl)
    | inr (r, q) ↦ rw q (rw i (_, refl))
  ]

  create_fp-stops :
      (fp : FinalityProviderResponse e.Pk) (s : e.Store) (address : Reply e.Address)
      → e.acc_address_from_bech32 fp.addr ≡ address
      → (fp.commission ≡ none) ⊎ (fp.commission_info ≡ none)
      → (x : Error) × (create_fp e query power_of fp chain_id s ≡ (err x, s))
  unfolding create_fp ◌>>=◌ wrapping call
  create_fp-stops fp s (fails m) a why = rw a (_, refl)
  create_fp-stops fp s (value addr) a why =
      let stop = commission_rates-stops fp s why in rw a (rw stop.1 (_, refl))

  create_fp-rejects :
      (fp : FinalityProviderResponse e.Pk) (s : e.Store) (m : String)
      → (e.acc_address_from_bech32 fp.addr ≡ fails m)
        ⊎ (fp.commission ≡ none)
        ⊎ (fp.commission_info ≡ none)
      → (x : Error) × (create_fp e query power_of fp chain_id s ≡ (err x, s))
  unfolding create_fp ◌>>=◌ wrapping call
  create_fp-rejects fp s m (inl a) = rw a (_, refl)
  create_fp-rejects fp s m (inr why) = create_fp-stops fp s _ refl why

  module _ (key_name : String) (s t : e.Store) where
    restored : Restores s t → restore_fp e query power_of key_name chain_id text s ≡ (ok tt, t)
    unfolding restore_fp ◌>>=◌ wrapping call query_response pure confirm
    restored h = rw h.decodes (
        rw h.known (
          rw ((put_fp_from_response_iff e query power_of h.fp chain_id s t).1 h.puts)
            (rw h.confirmed refl)))

    restores : restore_fp e query power_of key_name chain_id text s ≡ (ok tt, t) → Restores s t
    unfolding restore_fp
    restores h =
        let a = bind-Split _ _ s t tt h in
        let b = bind-Split _ _ a.mid t tt a.rest in
        let c = bind-Split _ _ b.mid t tt b.rest in
        let decoded = call-ok e query power_of _ _ _ _ (wrapping-ok _ _ _ _ _ a.first) in
        let known = response_of _ _ _ _ b.first in
        let stored = confirm-ok _ _ _ c.rest in
        record {
          pk = a.result;
          fp = b.result;
          stored = stored.0.0;
          decodes = decoded.0;
          known = known.0;
          puts = (put_fp_from_response_iff e query power_of b.result chain_id s t).0 (
              ap (put_fp_from_response e query power_of b.result chain_id) (decoded.1 ∙ known.1)
              ∙ wrapping-ok _ _ _ _ _ c.first
              ∙ ap (λ u. (ok tt, u)) stored.1);
          confirmed = ap (λ u. e.get_finality_provider u a.result) (sym stored.1) ∙ stored.0.1;
        }

    -- A restore succeeds and ends in a store exactly where the key decodes, Babylon knows it, all
    -- steps of a creation or all steps of an update of its answer succeed and end in that store,
    -- and the store then knows the key.
    pub restore_fp_iff :
        (restore_fp e query power_of key_name chain_id text s ≡ (ok tt, t)) ↔ Restores s t
    restore_fp_iff = (restores, restored)

  module _ (key_name : String) (s : e.Store) where
    -- A key that does not decode, no answer of Babylon, a failing look-up, or an answer for a key
    -- that is not stored and without an address or commission, makes a restore return an error and
    -- leaves the store as it was.
    pub restore_fp-Rejects :
        Rejects s
        → (x : Error) × (restore_fp e query power_of key_name chain_id text s ≡ (err x, s))
    unfolding restore_fp ◌>>=◌ wrapping call query_response pure raise put_fp_from_response put_by
        create_fp commission_rates
    restore_fp-Rejects (bad_key m d) = rw d (_, refl)
    restore_fp-Rejects (no_answer pk m d k) = rw d (rw k (_, refl))
    restore_fp-Rejects (nil_answer pk d k) = rw d (rw k (_, refl))
    restore_fp-Rejects (bad_store pk fp m d k f) = rw d (rw k (rw f (_, refl)))
    restore_fp-Rejects (bad_response pk fp m d k f why) =
        let stop = create_fp-rejects fp s m why in rw d (rw k (rw f (rw stop.1 (_, refl))))
