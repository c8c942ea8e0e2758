-- ===== src/Logging.antt =====
-- The loggers of finality-gadget/core/logging/zap.go.
pub mod Methods
use blitz.Base.{ℕ, String, Bool, true, false, Reply, value, fails, client, if◌then◌else◌}
use blitz.Process.{Process, Outcome, returned, panicked, outcome}

pub data LogLevel : Type 0 where
  development production : LogLevel

abbrev pub is_development : LogLevel → Bool
is_development development = true
is_development production = false

abbrev pub new_log_level : Bool → LogLevel
new_log_level is_production = if is_production then production else development

-- How the level of a line is written.
pub data LevelEncoder : Type 0 where
  capital capital_color other : LevelEncoder

pub data TimeEncoder : Type 0 where
  iso8601 other : TimeEncoder

-- What the program sets of a `zap.Config`; `Rest` is what it leaves.
pub record ZapConfig (Rest : Type 0) : Type 0 where
  pub disable_stacktrace : Bool
  pub encoding : String
  pub encode_time : TimeEncoder
  pub encode_level : LevelEncoder
  pub rest : Rest

-- What is external: the two presets, and the building of a logger that skips some callers.
pub record Zap : Type 1 where
  pub Rest : Type 0
  pub Logger : Type 0
  pub production_config : ZapConfig Rest
  pub development_config : ZapConfig Rest
  pub build : ZapConfig Rest → ℕ → Reply Logger

abbrev pub or_panics : {A : Type 0} → Reply A → Outcome A
or_panics (value a) = returned a
or_panics (fails m) = panicked (client m)

module _ (z : Zap) where
  -- The configuration that both constructors build.
  unfoldable pub zap_config : LogLevel → ZapConfig z.Rest
  zap_config env =
      record (if is_development env then z.development_config else z.production_config) {
        disable_stacktrace = true;
        encoding = "console";
        encode_time = TimeEncoder.iso8601;
        encode_level = if is_development env then capital_color else capital;
      }

  -- A logger that cannot be built is a panic, so no error is ever returned.
  unfoldable pub new_zap_logger : {S : Type 0} → LogLevel → Process S z.Logger
  new_zap_logger env = outcome (or_panics (z.build (zap_config env) 1))

  unfoldable pub new_zap_logger_inner : {S : Type 0} → LogLevel → Process S z.Logger
  new_zap_logger_inner env = outcome (or_panics (z.build (zap_config env) 0))
