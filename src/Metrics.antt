-- ===== src/Metrics.antt =====
-- The server of finality-gadget/metrics/server.go: the goroutine that serves, and its stop.
pub mod Ends
use blitz.Base.{String, List, [], ◌∷◌, Error, Result, ok, err}
use blitz.Process.{Process, Outcome, returned, exited, pure, exit, modify, outcome, ◌>>=◌, ◌>>◌}

-- What `ListenAndServe` returns, which is never nil.
pub data ServeError : Type 0 where
  server_closed : ServeError
  other : Error → ServeError

-- The lines of the log.
pub data Line : Type 0 where
  starting : String → Line
  start_failed : Error → Line
  stopping stopped : Line
  shutdown_failed : Error → Line

-- `*http.Server`, on a state `S`.
pub record HttpServer (S : Type 0) : Type 0 where
  pub listen_and_serve : String → S → ServeError × S
  pub shutdown : S → Result (Unit {0}) × S

-- The newest line first.
pub record ServerState (S : Type 0) : Type 0 where
  pub http_server : S
  pub log : List Line

module _ {S : Type 0} (h : HttpServer S) where
  unfoldable pub logging : Line → Process (ServerState S) (Unit {0})
  unfolding modify
  logging line = modify (λ s. record s { log = line ∷ s.log })

  unfoldable pub listen : String → Process (ServerState S) ServeError
  listen addr s =
      let (e, http) = h.listen_and_serve addr s.http_server in
      (returned e, record s { http_server = http })

  -- `Fatal` ends the process, unless the server was closed.
  unfoldable pub served : ServeError → Process (ServerState S) (Unit {0})
  served server_closed = pure tt
  served (other e) = do logging (start_failed e); exit e

  -- The goroutine of `Start`.
  unfoldable pub serve_metrics : String → Process (ServerState S) (Unit {0})
  serve_metrics addr = do logging (starting addr); e ← listen addr; served e

  unfoldable pub shut : Process (ServerState S) (Result (Unit {0}))
  shut s = let (r, http) = h.shutdown s.http_server in (returned r, record s { http_server = http })

  -- `Stop`, of which an error is only logged
  abbrev pub outcome_of : Result (Unit {0}) → Line
  outcome_of (ok u) = stopped
  outcome_of (err e) = shutdown_failed e

  unfoldable pub stop_server : Process (ServerState S) (Unit {0})
  stop_server = do logging stopping; r ← shut; logging (outcome_of r)
