-- ===== src/Eots/Transparent.antt =====
-- A program cannot tell the client of finality-gadget/client/eotsmanager from the manager inside it,
-- and only the creation of randomness is seen in the log.
use blitz.Base.{ℕ, zero, suc, ◌≡◌, refl, String, List, [], ◌∷◌, ◌++◌, Result}
use blitz.Eots.{
  EotsTypes, EotsManager, Line, pair_list, pair_list_with_interval, given, debugging, passing,
  eots_manager_client,
}

module _ (t : EotsTypes) where
  pub data Call : Type 0 where
    create_randomness_pair_list : t.Bytes → t.Bytes → ℕ → ℕ → Call
    create_randomness_pair_list_with_interval : t.Bytes → t.Bytes → ℕ → ℕ → ℕ → Call
    sign_eots : t.Bytes → t.Bytes → t.Bytes → ℕ → Call
    unsafe_sign_eots : t.Bytes → t.Bytes → t.Bytes → ℕ → Call
    sign_schnorr_sig : t.Bytes → t.Bytes → Call
    unlock : t.Bytes → String → Call
    backup : String → String → Call
    close : Call

  pub data Reply : Type 0 where
    randomness : Result (List t.FieldVal) → Reply
    eots : Result t.ModNScalar → Reply
    schnorr : Result t.Signature → Reply
    nothing : Result (Unit {0}) → Reply
    path : Result String → Reply

-- What the log shows of a call.
abbrev pub line_of : {t : EotsTypes} → Call t → Reply t → List (Line t)
line_of (create_randomness_pair_list uid chain_id start num) (randomness r) =
    pair_list start (given r) ∷ []
line_of (create_randomness_pair_list_with_interval uid chain_id start num interval) (randomness r) =
    pair_list_with_interval start interval (given r) ∷ []
line_of _ _ = []

module _ {t : EotsTypes} {S : Type 0} where
  abbrev replying : {A : Type 0} → (Result A → Reply t) → Result A × S → Reply t × S
  replying f x = (f x.0, x.1)

  -- One call of a program, and a sequence of calls, each of which may depend on the replies before.
  unfoldable pub call : EotsManager t S → Call t → S → Reply t × S
  call m (create_randomness_pair_list uid chain_id start num) s =
      replying randomness (m.create_randomness_pair_list uid chain_id start num s)
  call m (create_randomness_pair_list_with_interval uid chain_id start num interval) s =
      replying randomness
        (m.create_randomness_pair_list_with_interval uid chain_id start num interval s)
  call m (sign_eots uid chain_id msg height) s =
      replying eots (m.sign_eots uid chain_id msg height s)
  call m (unsafe_sign_eots uid chain_id msg height) s =
      replying eots (m.unsafe_sign_eots uid chain_id msg height s)
  call m (sign_schnorr_sig uid msg) s = replying schnorr (m.sign_schnorr_sig uid msg s)
  call m (unlock uid passphrase) s = replying nothing (m.unlock uid passphrase s)
  call m (backup db_path dir) s = replying path (m.backup db_path dir s)
  call m close s = replying nothing (m.close s)

  -- `next` is the program: the call that follows on the replies so far, the newest first.
  unfoldable pub calls :
      EotsManager t S → (List (Reply t) → Call t) → ℕ → List (Reply t) → S → List (Reply t) × S
  calls m next zero replies s = (replies, s)
  calls m next (suc n) replies s =
      let (r, s') = call m (next replies) s in calls m next n (r ∷ replies) s'

module _ {t : EotsTypes} {S : Type 0} where
  -- The lines of the calls, before those that are there.
  unfoldable pub shown :
      EotsManager t S
      → (List (Reply t) → Call t)
      → ℕ
      → List (Reply t)
      → S
      → List (Line t)
      → List (Line t)
  shown m next zero replies s log = log
  shown m next (suc n) replies s log =
      let (r, s') = call m (next replies) s in
      shown m next n (r ∷ replies) s' (line_of (next replies) r ++ log)

  call-client :
      (m : EotsManager t S) (c : Call t) (s : S) (log : List (Line t))
      → call (eots_manager_client m) c (s, log)
        ≡ ((call m c s).0, ((call m c s).1, line_of c (call m c s).0 ++ log))
  unfolding call eots_manager_client debugging passing
  call-client m (create_randomness_pair_list uid chain_id start num) s log = refl
  call-client m (create_randomness_pair_list_with_interval uid chain_id start num interval) s log =
      refl
  call-client m (sign_eots uid chain_id msg height) s log = refl
  call-client m (unsafe_sign_eots uid chain_id msg height) s log = refl
  call-client m (sign_schnorr_sig uid msg) s log = refl
  call-client m (unlock uid passphrase) s log = refl
  call-client m (backup db_path dir) s log = refl
  call-client m close s log = refl

  -- A program of any number of calls, each chosen by the replies before it, gets from the client
  -- of the EOTS manager the replies of the manager inside it, errors included, and leaves that
  -- manager in the same state; the log gains one line for each creation of randomness, made of
  -- heights and of what the call gave, and nothing of any other call.
  pub calls-client :
      (m : EotsManager t S) (next : List (Reply t) → Call t) (n : ℕ) (replies : List (Reply t))
      (s : S) (log : List (Line t))
      → calls (eots_manager_client m) next n replies (s, log) ≡ (
        (calls m next n replies s).0,
        ((calls m next n replies s).1, shown m next n replies s log),
      )
  unfolding calls shown
  calls-client m next zero replies s log = refl
  calls-client m next (suc n) replies s log =
      rw (call-client m (next replies) s log) (calls-client m next n _ _ _)
