-- ===== src/Config/Files.antt =====
-- The configuration file (finality-gadget/core/utils/config_reader.go).
use Prim.Native.String.{◌++◌}
use blitz.Base.{String, Bool, Reply, received, new, wrap, ◌==◌, string_eq, if◌then◌else◌}
use blitz.Process.{Process, exit, outcome, or_exit, of_result, ◌>>=◌}

-- What is external: whether `os.Stat` says that a path does not exist, `os.ReadFile` of a cleaned
-- path, and `yaml.Unmarshal` into a value.
pub record Files (A : Type 0) : Type 1 where
  pub Bytes : Type 0
  pub is_missing : String → Bool
  pub read_file : String → Reply Bytes
  pub unmarshal : Bytes → A → Reply A

-- `path := configFilePath; if configFilePath == "" { path = defaultPath }`
abbrev pub config_path : String → String → String
config_path config_file_path default_path =
    if config_file_path == "" then default_path else config_file_path

module _ {S A : Type 0} (f : Files A) where
  -- A missing file and a file that is no YAML end the process; another error is returned.
  unfoldable pub read_yaml_config : String → A → Process S A
  read_yaml_config path o =
      if f.is_missing path then exit (new ("Path " ++ path ++ " does not exist")) else (do
        b ← outcome (of_result (received (f.read_file path)))
        or_exit (wrap "unable to parse file") (outcome (of_result (received (f.unmarshal b o)))))

  unfoldable pub read_config : String → String → A → Process S A
  read_config config_file_path default_path o =
      read_yaml_config (config_path config_file_path default_path) o
