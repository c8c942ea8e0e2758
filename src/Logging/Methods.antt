-- ===== src/Logging/Methods.antt =====
-- The methods of the loggers (finality-gadget/core/logging/logger.go and zap.go).
use blitz.Base.{◌≡◌, new, ap, ◌∙◌, String, List, ◌++◌}
use blitz.Process.{Process, returned, exited, modify, exit, ◌>>=◌, ◌>>◌}

pub data Level : Type 0 where
  debug info warn error fatal : Level

-- `*zap.Logger` with its `Sugar`: how a line is written, to a state `S`, and a logger with more
-- tags. A line is a message with tags (`Debugw` and so on) or a template with arguments.
pub record Sugar (S : Type 0) : Type 1 where
  pub Logger : Type 0
  pub Any : Type 0
  pub log_w : Logger → Level → String → List Any → S → S
  pub log_f : Logger → Level → String → List Any → S → S
  pub with : Logger → List Any → Logger

module _ {S : Type 0} (z : Sugar S) where
  -- The interface `Logger`, but for `With`.
  pub record Methods : Type 0 where
    pub debug : String → List z.Any → Process S (Unit {0})
    pub info : String → List z.Any → Process S (Unit {0})
    pub warn : String → List z.Any → Process S (Unit {0})
    pub error : String → List z.Any → Process S (Unit {0})
    pub fatal : String → List z.Any → Process S (Unit {0})
    pub debugf : String → List z.Any → Process S (Unit {0})
    pub infof : String → List z.Any → Process S (Unit {0})
    pub warnf : String → List z.Any → Process S (Unit {0})
    pub errorf : String → List z.Any → Process S (Unit {0})
    pub fatalf : String → List z.Any → Process S (Unit {0})

  -- `ZapLogger`, of which `With` makes another one.
  pub record ZapLogger : Type 0 where
    pub logger : z.Logger

  abbrev pub inner : ZapLogger → z.Logger
  inner l = l.logger

  abbrev pub with_tags : ZapLogger → List z.Any → ZapLogger
  with_tags l tags = record { logger = z.with l.logger tags }

  unfoldable pub zap_methods : ZapLogger → Methods
  zap_methods l = record {
    debug = λ msg tags. modify (z.log_w l.logger Level.debug msg tags);
    info = λ msg tags. modify (z.log_w l.logger Level.info msg tags);
    warn = λ msg tags. modify (z.log_w l.logger Level.warn msg tags);
    error = λ msg tags. modify (z.log_w l.logger Level.error msg tags);
    fatal = λ msg tags. modify (z.log_w l.logger Level.fatal msg tags) >> exit (new msg);
    debugf = λ template args. modify (z.log_f l.logger Level.debug template args);
    infof = λ template args. modify (z.log_f l.logger Level.info template args);
    warnf = λ template args. modify (z.log_f l.logger Level.warn template args);
    errorf = λ template args. modify (z.log_f l.logger Level.error template args);
    fatalf =
        λ template args. modify (z.log_f l.logger Level.fatal template args) >> exit (new template);
  }

  -- zap: the tags of a logger stand before those of the line.
  abbrev KeepsTags : Type 0
  KeepsTags =
      (l : z.Logger) (level : Level) (msg : String) (tags more : List z.Any) (s : S)
      → z.log_w (z.with l tags) level msg more s ≡ z.log_w l level msg (tags ++ more) s

  -- A logger with tags, and with more, writes as one with all of them; a fatal line ends the process
  -- behind it.
  info_with_tags :
      (l : ZapLogger) (a b tags : List z.Any) (msg : String) (s : S)
      → KeepsTags
      → (zap_methods (with_tags (with_tags l a) b)).info msg tags s
        ≡ (zap_methods l).info msg (a ++ (b ++ tags)) s
  unfolding zap_methods modify
  info_with_tags l a b tags msg s keeps =
      ap (λ u. (returned tt, u))
        (keeps (z.with l.logger a) Level.info msg b tags s
          ∙ keeps l.logger Level.info msg a (b ++ tags) s)

  fatal_ends :
      (l : ZapLogger) (a tags : List z.Any) (msg : String) (s : S)
      → KeepsTags
      → (zap_methods (with_tags l a)).fatal msg tags s
        ≡ (exited (new msg), z.log_w l.logger Level.fatal msg (a ++ tags) s)
  unfolding zap_methods modify exit ◌>>=◌
  fatal_ends l a tags msg s keeps =
      ap (λ u. (exited (new msg), u)) (keeps l.logger Level.fatal msg a tags s)
