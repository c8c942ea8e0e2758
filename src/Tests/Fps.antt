-- ===== src/Tests/Fps.antt =====
-- The restore of finality-gadget/operator/fp/fp.go on a store that is a map.
use blitz.Base.{
  ℕ, ◌≡◌, refl, ◌↔◌, String, Bool, true, false, Option, none, some, [], ◌∷◌, ok, err, Error, Reply,
  value, fails, ◌==◌, string_eq, if◌then◌else◌, inl, inr,
}
use blitz.Base.GoMap.{GoMap, lookup, insert}
use blitz.Exec.{runs}
use blitz.Fps.{
  FinalityProviderStatus, jailed, inactive, Found, found, not_found, FpEnv,
  FinalityProviderResponse, choose_status, write, call, commission_rates, create_fp, update_fp,
  put_by, put_fp_from_response, query_error, query_response, confirm, restore_fp, stored_fps,
  list_all_finality_providers_info,
}
use blitz.Fps.Restore.{Creates}
use blitz.Fps.Outcomes.{Restores, Rejects, bad_response, restore_fp_iff, restore_fp-Rejects}

unfoldable pub restores : Unit {0}
unfolding runs lookup insert choose_status write call commission_rates create_fp update_fp put_by
    put_fp_from_response query_error query_response confirm restore_fp stored_fps
    list_all_finality_providers_info
restores = tt

pub record LocalFp : Type 0 where
  about : String
  voted : ℕ
  status : FinalityProviderStatus

abbrev looked_up : Option LocalFp → Found LocalFp
looked_up none = not_found
looked_up (some fp) = found fp

abbrev changed :
    (LocalFp → LocalFp)
    → String
    → Option LocalFp
    → GoMap String LocalFp
    → Option String × GoMap String LocalFp
changed f pk none s = (some "no such provider", s)
changed f pk (some fp) s = (none, insert pk (f fp) s)

abbrev not_empty : String → Reply String
not_empty t = if t == "" then fails "empty" else value t

abbrev pub local : FpEnv
local = record {
  Store = GoMap String LocalFp;
  Pk = String;
  Stored = LocalFp;
  Info = String;
  Rates = ℕ;
  Address = String;
  pub_key_from_hex = not_empty;
  acc_address_from_bech32 = not_empty;
  new_commission_rates = λ rate top change. rate;
  to_finality_provider_info = λ fp. fp.about;
  get_finality_provider = λ s pk. looked_up (lookup pk s);
  get_all_stored_finality_providers = λ s. value [];
  create_finality_provider = λ addr pk about rates chain s.
      (none, insert pk (record { about = about; voted = 0; status = inactive }) s);
  set_fp_description =
      λ pk about rate s. changed (λ fp. record fp { about = about }) pk (lookup pk s) s;
  set_fp_last_voted_height = λ pk n s. changed (λ fp. record fp { voted = n }) pk (lookup pk s) s;
  set_fp_status = λ pk status s. changed (λ fp. record fp { status = status }) pk (lookup pk s) s;
}

abbrev response : FinalityProviderResponse String
response = record {
  btc_pk = "key";
  addr = "bbn1";
  description = "one";
  commission = some 5;
  commission_info = some (record { max_rate = 10; max_change_rate = 1 });
  highest_voted_height = 7;
  height = 9;
  slashed_btc_height = 0;
  is_jailed = true;
}

abbrev pub babylon : String → Reply (Option (FinalityProviderResponse String))
babylon pk =
    if pk == "key"
    then value (some response)
    else if pk == "poor"
    then value (some (record response { commission = none }))
    else fails "the finality provider is not found"

abbrev pub no_power : String → ℕ → Reply Bool
no_power pk n = value false

abbrev pub created : GoMap String LocalFp
created = ("key", record { about = "one"; voted = 0; status = inactive }) ∷ []

abbrev updated : GoMap String LocalFp
updated = ("key", record { about = "one"; voted = 7; status = jailed }) ∷ []

restores_twice : restore_fp local babylon no_power "name" "bbn" "key" created ≡ (ok tt, updated)
unfolding restores
restores_twice = refl

lists_none : list_all_finality_providers_info local babylon no_power created ≡ (ok [], created)
unfolding restores
lists_none = refl

not_known :
    restore_fp local babylon no_power "name" "bbn" "other" []
    ≡ (err (query_error local babylon no_power "other" "the finality provider is not found"), [])
unfolding restores
not_known = refl

jailed_status : choose_status false 0 true ≡ jailed
unfolding restores
jailed_status = refl

creation : Creates local babylon no_power response "bbn" [] created
unfolding restores
creation = record {
  addr = "bbn1";
  rate = 5;
  info = record { max_rate = 10; max_change_rate = 1 };
  missing = refl;
  address = refl;
  commission = refl;
  limits = refl;
  creates = refl;
}

created_first : restore_fp local babylon no_power "name" "bbn" "key" [] ≡ (ok tt, created)
unfolding restores
created_first = refl

no_commission : Rejects local babylon no_power "bbn" "poor" []
unfolding restores
no_commission =
    bad_response "poor" (record response { commission = none }) "" refl refl refl (inr (inl refl))

restore_fp_iff_example :
    (restore_fp local babylon no_power "name" "bbn" "key" [] ≡ (ok tt, created))
    ↔ Restores local babylon no_power "bbn" "key" [] created
restore_fp_iff_example = restore_fp_iff local babylon no_power "bbn" "key" "name" [] created

rejected : (x : Error) × (restore_fp local babylon no_power "name" "bbn" "poor" [] ≡ (err x, []))
rejected = restore_fp-Rejects local babylon no_power "bbn" "poor" "name" [] no_commission
