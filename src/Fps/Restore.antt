-- ===== src/Fps/Restore.antt =====
-- What a restore does to the local store (finality-gadget/operator/fp/fp.go).
use blitz.Base.{
  ℕ, ◌<◌, ◌≡◌, refl, ap, ◌∙◌, ◌↔◌, ◌⊎◌, inl, inr, String, Bool, true, false, Option, none, some, ok,
  Reply, value, arith,
}
use blitz.Exec.{pure, raise, wrapping, ◌>>=◌}
use blitz.Exec.Inversion.{bind-Split, wrapping-ok, received-ok}
use blitz.Fps.{
  active, slashed, jailed, inactive, Found, found, not_found, failed, CommissionInfo, FpEnv,
  FinalityProviderResponse, choose_status, written, write, call, commission_rates, create_fp,
  update_fp, put_by, put_fp_from_response,
}

-- Voting power makes a provider active; without it, it is slashed exactly if its slashing height
-- is above 0, jailed if it is not slashed and is jailed, and inactive otherwise.
pub choose_status_iff :
    (power : Bool) (height : ℕ) (jail : Bool)
    → ((choose_status power height jail ≡ active) ↔ (power ≡ true))
      × ((choose_status power height jail ≡ slashed) ↔ ((power ≡ false) × (0 < height)))
      × ((choose_status power height jail ≡ jailed)
          ↔ ((power ≡ false) × (height ≡ 0) × (jail ≡ true)))
      × ((choose_status power height jail ≡ inactive)
          ↔ ((power ≡ false) × (height ≡ 0) × (jail ≡ false)))
unfolding choose_status
choose_status_iff power height jail = ground arith

module _ (e : FpEnv) (query : e.Pk → Reply (Option (FinalityProviderResponse e.Pk)))
    (power_of : e.Pk → ℕ → Reply Bool) where
  -- A provider that is not stored is created, with the rates of the response.
  pub record Creates (fp : FinalityProviderResponse e.Pk) (chain_id : String) (s t : e.Store)
      : Type 0 where
    pub addr : e.Address
    pub rate : ℕ
    pub info : CommissionInfo
    pub missing : e.get_finality_provider s fp.btc_pk ≡ not_found
    pub address : e.acc_address_from_bech32 fp.addr ≡ value addr
    pub commission : fp.commission ≡ some rate
    pub limits : fp.commission_info ≡ some info
    pub creates :
        e.create_finality_provider addr fp.btc_pk fp.description
          (e.new_commission_rates rate info.max_rate info.max_change_rate)
          chain_id
          s
        ≡ (none, t)

  -- One that is stored gets the description, the height and the status of the response, in turn.
  pub record Updates (fp : FinalityProviderResponse e.Pk) (s t : e.Store) : Type 0 where
    pub stored : e.Stored
    pub described : e.Store
    pub voted : e.Store
    pub power : Bool
    pub present : e.get_finality_provider s fp.btc_pk ≡ found stored
    pub describes :
        e.set_fp_description fp.btc_pk fp.description fp.commission s ≡ (none, described)
    pub votes :
        e.set_fp_last_voted_height fp.btc_pk fp.highest_voted_height described ≡ (none, voted)
    pub powers : power_of fp.btc_pk fp.height ≡ value power
    pub sets :
        e.set_fp_status fp.btc_pk (choose_status power fp.slashed_btc_height fp.is_jailed) voted
        ≡ (none, t)

  module _ (fp : FinalityProviderResponse e.Pk) (chain_id : String) (s t : e.Store) where
    put-Creates :
        Creates fp chain_id s t → put_fp_from_response e query power_of fp chain_id s ≡ (ok tt, t)
    unfolding put_fp_from_response put_by create_fp commission_rates write call wrapping pure ◌>>=◌
    put-Creates h = ground arith

    put-Updates : Updates fp s t → put_fp_from_response e query power_of fp chain_id s ≡ (ok tt, t)
    unfolding put_fp_from_response put_by update_fp write call wrapping pure ◌>>=◌
    put-Updates h = ground arith

  pub call-ok :
      {A : Type 0} (r : Reply A) (a : A) (s t : e.Store)
      → call e query power_of r s ≡ (ok a, t)
      → (r ≡ value a) × (s ≡ t)
  unfolding call
  call-ok r a s t h = (received-ok r a (ap (λ p. p.0) h), ap (λ p. p.1) h)

  written-ok : (r : Option String) → written r ≡ ok tt → r ≡ none
  written-ok r h = ground arith

  write-ok :
      (op : e.Store → Option String × e.Store) (s t : e.Store)
      → write e query power_of op s ≡ (ok tt, t)
      → op s ≡ (none, t)
  unfolding write
  write-ok op s t h = λ i. (written-ok (op s).0 (ap (λ p. p.0) h) i, (h i).1)

  -- The rates that a response gives, where it gives them.
  record Given (fp : FinalityProviderResponse e.Pk) (rates : e.Rates) : Type 0 where
    rate : ℕ
    info : CommissionInfo
    commission : fp.commission ≡ some rate
    limits : fp.commission_info ≡ some info
    agrees : e.new_commission_rates rate info.max_rate info.max_change_rate ≡ rates

  given :
      (fp : FinalityProviderResponse e.Pk) (rates : e.Rates) (s t : e.Store) (c : Option ℕ)
      (i : Option CommissionInfo)
      → fp.commission ≡ c
      → fp.commission_info ≡ i
      → commission_rates e query power_of fp s ≡ (ok rates, t)
      → Given fp rates × (s ≡ t)
  unfolding commission_rates pure raise
  given fp rates s t none i ec ei h = ground arith
  given fp rates s t (some r) none ec ei h = ground arith
  given fp rates s t (some r) (some i) ec ei h =
      (record { rate = r; info = i; commission = ec; limits = ei; agrees = cc }, cc)

  module _ (fp : FinalityProviderResponse e.Pk) (chain_id : String) (s t : e.Store) where
    create-Creates :
        e.get_finality_provider s fp.btc_pk ≡ not_found
        → create_fp e query power_of fp chain_id s ≡ (ok tt, t)
        → Creates fp chain_id s t
    unfolding create_fp
    create-Creates missing h =
        let a = bind-Split _ _ s t tt h in
        let called = call-ok _ _ _ _ (wrapping-ok _ _ _ _ _ a.first) in
        let b = bind-Split _ _ a.mid t tt a.rest in
        let g = given fp b.result a.mid b.mid fp.commission fp.commission_info refl refl b.first in
        let saved = write-ok _ _ _ (wrapping-ok _ _ _ _ _ b.rest) in
        record {
          addr = a.result;
          rate = g.0.rate;
          info = g.0.info;
          missing = missing;
          address = called.0;
          commission = g.0.commission;
          limits = g.0.limits;
          creates =
              ap (λ r. e.create_finality_provider a.result fp.btc_pk fp.description r chain_id s)
                g.0.agrees
              ∙ ap (e.create_finality_provider a.result fp.btc_pk fp.description b.result chain_id)
                  (called.1 ∙ g.1)
              ∙ saved;
        }

    update-Updates :
        (stored : e.Stored)
        → e.get_finality_provider s fp.btc_pk ≡ found stored
        → update_fp e query power_of fp s ≡ (ok tt, t)
        → Updates fp s t
    unfolding update_fp
    update-Updates stored present h =
        let a = bind-Split _ _ s t tt h in
        let b = bind-Split _ _ a.mid t tt a.rest in
        let c = bind-Split _ _ b.mid t tt b.rest in
        let called = call-ok _ _ _ _ (wrapping-ok _ _ _ _ _ c.first) in
        record {
          stored = stored;
          described = a.mid;
          voted = b.mid;
          power = c.result;
          present = present;
          describes = write-ok _ _ _ a.first;
          votes = write-ok _ _ _ b.first;
          powers = called.0;
          sets =
              ap
                (e.set_fp_status fp.btc_pk
                  (choose_status c.result fp.slashed_btc_height fp.is_jailed))
                called.1
              ∙ write-ok _ _ _ (wrapping-ok _ _ _ _ _ c.rest);
        }

    put_by-ok :
        (looked_up : Found e.Stored)
        → e.get_finality_provider s fp.btc_pk ≡ looked_up
        → put_by e query power_of fp chain_id looked_up s ≡ (ok tt, t)
        → Creates fp chain_id s t ⊎ Updates fp s t
    unfolding put_by raise
    put_by-ok not_found q h = inl (create-Creates q h)
    put_by-ok (failed message) q h = ground arith
    put_by-ok (found stored) q h = inr (update-Updates stored q h)

    -- The local store takes a response and ends in a given store exactly where all steps of a
    -- creation, or all steps of an update, succeed and end in that store.
    pub put_fp_from_response_iff :
        (put_fp_from_response e query power_of fp chain_id s ≡ (ok tt, t))
        ↔ (Creates fp chain_id s t ⊎ Updates fp s t)
    unfolding put_fp_from_response
    put_fp_from_response_iff = (
      put_by-ok (e.get_finality_provider s fp.btc_pk) refl,
      λ h. elim h [ inl c ↦ put-Creates fp chain_id s t c | inr u ↦ put-Updates fp chain_id s t u ],
    )
