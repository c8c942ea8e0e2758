-- ===== src/Eots.antt =====
-- The client of the EOTS manager (finality-gadget/client/eotsmanager/eotsmanager.go): an
-- `EOTSManager` around another one, which writes to the log what randomness it was given.
pub mod Transparent
use blitz.Base.{ℕ, String, List, [], ◌∷◌, ◌++◌, Option, none, some, Error, Result, ok, err}
use blitz.Exec.{Exec}

-- The types of the methods: texts of bytes, field values, scalars and signatures.
pub record EotsTypes : Type 1 where
  pub Bytes : Type 0
  pub FieldVal : Type 0
  pub ModNScalar : Type 0
  pub Signature : Type 0

-- The interface `EOTSManager` of github.com/babylonlabs-io/finality-provider, on a state.
pub record EotsManager (t : EotsTypes) (S : Type 0) : Type 0 where
  pub create_randomness_pair_list : t.Bytes → t.Bytes → ℕ → ℕ → Exec S (List t.FieldVal)
  pub create_randomness_pair_list_with_interval :
      t.Bytes → t.Bytes → ℕ → ℕ → ℕ → Exec S (List t.FieldVal)
  pub sign_eots : t.Bytes → t.Bytes → t.Bytes → ℕ → Exec S t.ModNScalar
  pub unsafe_sign_eots : t.Bytes → t.Bytes → t.Bytes → ℕ → Exec S t.ModNScalar
  pub sign_schnorr_sig : t.Bytes → t.Bytes → Exec S t.Signature
  pub unlock : t.Bytes → String → Exec S (Unit {0})
  pub backup : String → String → Exec S String
  pub close : Exec S (Unit {0})

-- A line of the log, with its arguments; `none` is what came beside an error.
pub data Line (t : EotsTypes) : Type 0 where
  pair_list : ℕ → Option (List t.FieldVal) → Line t
  pair_list_with_interval : ℕ → ℕ → Option (List t.FieldVal) → Line t

-- The inner manager, and the lines of the log, the newest first.
abbrev pub Logged : EotsTypes → Type 0 → Type 0
Logged t S = S × List (Line t)

abbrev pub given : {A : Type 0} → Result A → Option A
given (ok a) = some a
given (err e) = none

module _ {t : EotsTypes} {S : Type 0} where
  -- A call of the inner manager, and a line on what it gave.
  unfoldable pub debugging : {A : Type 0} → (Option A → Line t) → Exec S A → Exec (Logged t S) A
  debugging line m (s, log) = let (r, s') = m s in (r, (s', line (given r) ∷ log))

  unfoldable pub passing : {A : Type 0} → Exec S A → Exec (Logged t S) A
  passing m (s, log) = let (r, s') = m s in (r, (s', log))

  unfoldable pub eots_manager_client : EotsManager t S → EotsManager t (Logged t S)
  eots_manager_client inner = record {
    create_randomness_pair_list = λ uid chain_id start_height num.
        debugging (pair_list start_height)
          (inner.create_randomness_pair_list uid chain_id start_height num);
    create_randomness_pair_list_with_interval = λ uid chain_id start_height num interval.
        debugging (pair_list_with_interval start_height interval)
          (inner.create_randomness_pair_list_with_interval uid chain_id start_height num interval);
    sign_eots = λ uid chain_id msg height. passing (inner.sign_eots uid chain_id msg height);
    unsafe_sign_eots =
        λ uid chain_id msg height. passing (inner.unsafe_sign_eots uid chain_id msg height);
    sign_schnorr_sig = λ uid msg. passing (inner.sign_schnorr_sig uid msg);
    unlock = λ uid passphrase. passing (inner.unlock uid passphrase);
    backup = λ db_path backup_dir. passing (inner.backup db_path backup_dir);
    close = passing inner.close;
  }
