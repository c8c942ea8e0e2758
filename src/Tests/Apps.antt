-- ===== src/Tests/Apps.antt =====
-- The life of finality-gadget/operator/fp/app.go with one stored provider.
use blitz.Base.{
  ◌≡◌, refl, String, true, false, [], ◌∷◌, ok, value, fails, client, wrap, ◌==◌, string_eq,
  if◌then◌else◌,
}
use blitz.Exec
use blitz.Process
use blitz.Process.{failed, exited}
use blitz.App.{
  AppEnv, AppConfig, AppWorld, ask, start_instance, start_by_key, start_stored, start_by_store,
  start_chosen, close_quit, wait, stop_all, stop_impl,
}
use blitz.App.Starts.{start_rpc, run_rpc, open_rpc, start}
use blitz.App.Lifecycle.{IsStopped, stop_impl-IsStopped}
use blitz.App.Choice.{Chosen, start-Chosen}

program : Unit {0}
unfolding Exec.runs Process.runs ask start_instance start_by_key start_stored start_by_store
    start_chosen start_rpc run_rpc open_rpc close_quit wait stop_all stop_impl start
program = tt

-- `Stop` always fails.
abbrev pub services : AppEnv
services = record {
  Pk = String;
  pub_key_from_hex = λ text. if text == "bad" then fails "no key" else value text;
  start = λ t. value tt;
  start_finality_provider = λ t pk. value tt;
  get_all_stored_finality_providers = λ t. value ("stored" ∷ []);
  stop = λ t. fails "busy";
  close = λ t. value tt;
  rpc_stack = record { register_apis = value tt; start_http_endpoint = λ addr. value addr };
  opens_late = true;
}

abbrev config : AppConfig
config = record { json_rpc_server_ip_port_addr = ":8080"; has_rpc = true }

abbrev pub fresh : AppWorld String
fresh = record {
  stop_once = false;
  quit_closed = false;
  wg = 0;
  instant = 0;
  started = [];
  stops = 0;
  closes = 0;
}

starts_the_stored : (start services config "" fresh).1.started ≡ "stored" ∷ []
unfolding program
starts_the_stored = refl

stop_fails : (start services config "key" fresh).0 ≡ failed (wrap "stop failed" (client "busy"))
unfolding program
stop_fails = refl

-- A port in use ends the process, after a provider was started.
abbrev busy : AppEnv
busy = record services {
  rpc_stack = record { register_apis = value tt; start_http_endpoint = λ addr. fails "in use" };
}

exits :
    (start busy config "key" fresh).0 ≡ exited (wrap "Could not start RPC api" (client "in use"))
unfolding program
exits = refl

start-Chosen_example : Chosen services "key" (start services config "key" fresh).1.started
start-Chosen_example = start-Chosen services config "key" fresh refl

stop_impl-IsStopped_example :
    IsStopped services fresh (stop_impl services fresh).0 (stop_impl services fresh).1
    × (stop_impl services (stop_impl services fresh).1 ≡ (ok tt, (stop_impl services fresh).1))
stop_impl-IsStopped_example = stop_impl-IsStopped services fresh refl refl
