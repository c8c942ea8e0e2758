-- ===== src/Tests/Controllers.antt =====
-- The controller of finality-gadget/operator/fp/controllers/controller.go with one account.
use blitz.Base.{ℕ, ◌≡◌, refl, String, true, [], ◌∷◌, some, none, new, value, fails, string_eq}
use blitz.Base.GoMap.{lookup, insert}
use blitz.Process.{runs, returned, panicked}
use blitz.Controller.{
  ControllerEnv, ControllerWorld, ask, query_balance, record_balance, measure, measurement,
  record_fp_balance, commit_pub_rand_list, submit_batch_finality_sigs, close_l2_client,
  stop_if_running, close,
}
use blitz.Controller.Balances.{Measured, measurement_lem}

program : Unit {0}
unfolding runs lookup insert ask query_balance record_balance measure measurement record_fp_balance
    commit_pub_rand_list submit_batch_finality_sigs close_l2_client stop_if_running close
program = tt

-- Balances are whole numbers here, and the query of the balance fails.
abbrev pub chain : ControllerEnv
chain = record {
  Request = ℕ;
  TxResponse = String;
  Bytes = String;
  Float = ℕ;
  no_balance = 0;
  in_millions = λ n. n;
  get_addr = λ t. value "bbn1";
  marshal = λ address denom. value address;
  abci_query = λ t path request. fails "timeout";
  unmarshal = λ answer. value (some 7);
  commit_pub_rand_list = λ t req. value "tx";
  submit_batch_finality_sigs = λ t req. fails "refused";
  is_running = λ t. true;
  stop = λ t. value tt;
  close = λ t. value tt;
}

abbrev pub start : ControllerWorld ℕ
start = record { instant = 0; balances = ("bbn1", 9) ∷ []; waiting = 0 }

-- An error of the query shows as a balance of 0.
balance_falls_to_0 : (measurement chain start).1.balances ≡ ("bbn1", 0) ∷ []
unfolding program
balance_falls_to_0 = refl

closes :
    (close chain (record { has_l2_client = true; back_height_count = 1 }) start).0 ≡ returned tt
unfolding program
closes = refl

measurement_lem_example :
    Measured chain start (measurement chain start).0 (measurement chain start).1.balances
measurement_lem_example = measurement_lem chain start

-- An answer without a balance ends the goroutine by a panic.
abbrev empty : ControllerEnv
empty = record chain { abci_query = λ t path request. value ""; unmarshal = λ answer. value none }

panics :
    (measurement empty start).0 ≡ panicked (new "invalid memory address or nil pointer dereference")
unfolding program
panics = refl

one_waits : (commit_pub_rand_list chain 1 start).1.waiting ≡ 1
unfolding program
one_waits = refl
