-- ===== src/Fps.antt =====
-- `fpsCmdProvider` (finality-gadget/operator/fp/fp.go): it restores a finality provider into the
-- local store, and lists those of the store.
pub mod Restore
pub mod Outcomes
use Prim.Native.String.{◌++◌}
use blitz.Base.{
  ℕ, String, Bool, true, false, Option, none, some, List, map, Error, Result, ok, err, new, wrap,
  client, Reply, received, ltb, if◌then◌else◌,
}
use blitz.Base.GoText.{contains_text}
use blitz.Exec.{Exec, pure, raise, wrapping, ◌>>=◌, ◌>>◌}

-- The statuses that the program writes.
pub data FinalityProviderStatus : Type 0 where
  active slashed jailed inactive : FinalityProviderStatus

-- The answer of a look-up in the store: `ErrFinalityProviderNotFound` is told from other errors.
pub data Found (A : Type 0) : Type 0 where
  found : A → Found A
  not_found : Found A
  failed : String → Found A

-- `fp.CommissionInfo`, with decimals as numbers of the smallest unit
pub record CommissionInfo : Type 0 where
  pub max_rate : ℕ
  pub max_change_rate : ℕ

-- What is external: the key codec, Babylon, and the store with its own state. A write returns the
-- text of its error, if any, and the new state.
pub record FpEnv : Type 1 where
  pub Store : Type 0
  pub Pk : Type 0
  pub Stored : Type 0
  pub Info : Type 0
  pub Rates : Type 0
  pub Address : Type 0
  pub pub_key_from_hex : String → Reply Pk
  pub acc_address_from_bech32 : String → Reply Address
  pub new_commission_rates : ℕ → ℕ → ℕ → Rates
  pub to_finality_provider_info : Stored → Info
  pub get_finality_provider : Store → Pk → Found Stored
  pub get_all_stored_finality_providers : Store → Reply (List Stored)
  pub create_finality_provider :
      Address → Pk → String → Rates → String → Store → Option String × Store
  pub set_fp_description : Pk → String → Option ℕ → Store → Option String × Store
  pub set_fp_last_voted_height : Pk → ℕ → Store → Option String × Store
  pub set_fp_status : Pk → FinalityProviderStatus → Store → Option String × Store

-- `bstypes.FinalityProviderResponse`; a nil pointer is `none`.
pub record FinalityProviderResponse (Pk : Type 0) : Type 0 where
  pub btc_pk : Pk
  pub addr : String
  pub description : String
  pub commission : Option ℕ
  pub commission_info : Option CommissionInfo
  pub highest_voted_height : ℕ
  pub height : ℕ
  pub slashed_btc_height : ℕ
  pub is_jailed : Bool

-- `switch { case hasPower: … }`
unfoldable pub choose_status : Bool → ℕ → Bool → FinalityProviderStatus
choose_status has_power slashed_btc_height is_jailed =
    if has_power
    then active
    else if ltb 0 slashed_btc_height
    then slashed
    else if is_jailed
    then jailed
    else inactive

abbrev pub written : Option String → Result (Unit {0})
written none = ok tt
written (some message) = err (client message)

module _ (e : FpEnv)
    (query_finality_provider : e.Pk → Reply (Option (FinalityProviderResponse e.Pk)))
    (query_has_power : e.Pk → ℕ → Reply Bool) where
  -- A write of the store.
  unfoldable pub write : (e.Store → Option String × e.Store) → Exec e.Store (Unit {0})
  write op s = let (error, s') = op s in (written error, s')

  -- A call of Babylon, which does not touch the store.
  unfoldable pub call : {A : Type 0} → Reply A → Exec e.Store A
  call r s = (received r, s)

  -- The two nil checks, and the three rates.
  unfoldable pub commission_rates : FinalityProviderResponse e.Pk → Exec e.Store e.Rates
  commission_rates fp = elim fp.commission [
    | none ↦ raise (new "nil Commission in FinalityProviderResponse")
    | some rate ↦ elim fp.commission_info [
      | none ↦ raise (new "nil CommissionInfo in FinalityProviderResponse")
      | some info ↦ pure (e.new_commission_rates rate info.max_rate info.max_change_rate)
    ]
  ]

  unfoldable pub create_fp : FinalityProviderResponse e.Pk → String → Exec e.Store (Unit {0})
  create_fp fp chain_id = do
    addr ← wrapping (wrap "err converting fp addr") (call (e.acc_address_from_bech32 fp.addr))
    comm_rates ← commission_rates fp
    wrapping (wrap "failed to save finality-provider")
        (write (e.create_finality_provider addr fp.btc_pk fp.description comm_rates chain_id))

  unfoldable pub update_fp : FinalityProviderResponse e.Pk → Exec e.Store (Unit {0})
  update_fp fp = do
    write (e.set_fp_description fp.btc_pk fp.description fp.commission)
    write (e.set_fp_last_voted_height fp.btc_pk fp.highest_voted_height)
    has_power ←
        wrapping (wrap "failed to query voting power for finality provider")
          (call (query_has_power fp.btc_pk fp.height))
    wrapping (wrap "failed to update status for finality provider") (
        write
          (e.set_fp_status fp.btc_pk (choose_status has_power fp.slashed_btc_height fp.is_jailed)))

  unfoldable pub put_by :
      FinalityProviderResponse e.Pk → String → Found e.Stored → Exec e.Store (Unit {0})
  put_by fp chain_id not_found = create_fp fp chain_id
  put_by fp chain_id (failed message) = raise (client message)
  put_by fp chain_id (found _) = update_fp fp

  unfoldable pub put_fp_from_response :
      FinalityProviderResponse e.Pk → String → Exec e.Store (Unit {0})
  put_fp_from_response fp chain_id s = put_by fp chain_id (e.get_finality_provider s fp.btc_pk) s

  -- The error of the query, which mentions whether Babylon knows the finality provider.
  unfoldable pub query_error : String → String → Error
  query_error fp_btp_pk_str message =
      if contains_text message "the finality provider is not found"
      then wrap ("query finality provider " ++ fp_btp_pk_str ++ " failed") (client message)
      else wrap "err getting finality provider" (client message)

  unfoldable pub query_response :
      String
      → Reply (Option (FinalityProviderResponse e.Pk))
      → Exec e.Store (FinalityProviderResponse e.Pk)
  query_response fp_btp_pk_str (Reply.fails message) = raise (query_error fp_btp_pk_str message)
  query_response fp_btp_pk_str (Reply.value none) =
      raise (new ("no found finality provider by " ++ fp_btp_pk_str))
  query_response fp_btp_pk_str (Reply.value (some resp)) = pure resp

  -- The last look-up of `RestoreFP`.
  abbrev pub is_stored : Found e.Stored → Result (Unit {0})
  is_stored (found _) = ok tt
  is_stored not_found =
      err (wrap "GetFinalityProvider failed" (client "finality provider not found"))
  is_stored (failed message) = err (wrap "GetFinalityProvider failed" (client message))

  unfoldable pub confirm : e.Pk → Exec e.Store (Unit {0})
  confirm pk s = (is_stored (e.get_finality_provider s pk), s)

  unfoldable pub restore_fp : String → String → String → Exec e.Store (Unit {0})
  restore_fp key_name chain_id fp_btp_pk_str = do
    fp_btp_pk ←
        wrapping (wrap "failed to NewBIP340PubKeyFromHex") (call (e.pub_key_from_hex fp_btp_pk_str))
    resp ← query_response fp_btp_pk_str (query_finality_provider fp_btp_pk)
    wrapping (wrap "putFpFromResponse failed") (put_fp_from_response resp chain_id)
    confirm fp_btp_pk

  unfoldable pub stored_fps : Exec e.Store (List e.Stored)
  stored_fps s = (received (e.get_all_stored_finality_providers s), s)

  unfoldable pub list_all_finality_providers_info : Exec e.Store (List e.Info)
  list_all_finality_providers_info = do
    fps ← wrapping (wrap "failed to get all stored finality providers") stored_fps
    pure (map e.to_finality_provider_info fps)
