-- ===== src/Tests/Eots.antt =====
-- A manager of one key, called through the client of finality-gadget/client/eotsmanager.
use blitz.Base.{ℕ, ◌+◌, ◌≡◌, refl, String, List, [], ◌∷◌, some, ok, err, new}
use blitz.Eots.{EotsTypes, EotsManager, pair_list, debugging, passing, eots_manager_client}
use blitz.Eots.Transparent.{
  Call, Reply, create_randomness_pair_list, unlock, sign_eots, close, randomness, nothing, call,
  calls, shown, calls-client,
}

abbrev texts : EotsTypes
texts = record { Bytes = String; FieldVal = ℕ; ModNScalar = ℕ; Signature = String }

-- The state is the number of keys that are unlocked.
abbrev manager : EotsManager texts ℕ
manager = record {
  create_randomness_pair_list = λ uid chain_id start num s. (ok (start ∷ []), s);
  create_randomness_pair_list_with_interval =
      λ uid chain_id start num interval s. (err (new "no interval"), s);
  sign_eots = λ uid chain_id msg height s. (ok (height + s), s);
  unsafe_sign_eots = λ uid chain_id msg height s. (err (new "unsafe"), s);
  sign_schnorr_sig = λ uid msg s. (ok msg, s);
  unlock = λ uid passphrase s. (ok tt, s + 1);
  backup = λ db_path backup_dir s. (ok backup_dir, s);
  close = λ s. (ok tt, s);
}

-- A program that unlocks the key, commits to randomness, and signs.
abbrev steps : List (Reply texts) → Call texts
steps [] = unlock "key" "secret"
steps (nothing r ∷ replies) = create_randomness_pair_list "key" "chain" 7 1
steps (randomness r ∷ replies) = sign_eots "key" "chain" "block" 7
steps _ = close

calls-client_example : calls (eots_manager_client manager) steps 3 [] (0, []) ≡ (
  (calls manager steps 3 [] 0).0,
  ((calls manager steps 3 [] 0).1, shown manager steps 3 [] 0 []),
)
calls-client_example = calls-client manager steps 3 [] 0 []

one_line :
    (calls (eots_manager_client manager) steps 3 [] (0, [])).1.1 ≡ pair_list 7 (some (7 ∷ [])) ∷ []
unfolding call calls eots_manager_client debugging passing
one_line = refl
