-- ===== src/Metrics/Ends.antt =====
-- When the server of finality-gadget/metrics/server.go ends the process.
use blitz.Base.{◌≡◌, refl, String}
use blitz.Process.{Outcome, returned, exited, pure, exit, modify, ◌>>=◌}
use blitz.Metrics.{
  ServeError, server_closed, other, HttpServer, ServerState, logging, listen, served, serve_metrics,
  shut, stop_server,
}

module _ {S : Type 0} (h : HttpServer S) where
  -- What the goroutine comes to, by what `ListenAndServe` returns.
  abbrev pub end : ServeError → Outcome (Unit {0})
  end server_closed = returned tt
  end (other e) = exited e

  served-end : (e : ServeError) (s : ServerState S) → (served h e s).0 ≡ end e
  unfolding served logging modify pure exit ◌>>=◌
  served-end server_closed s = refl
  served-end (other e) s = refl

  -- The goroutine of the metrics server ends the process exactly where `ListenAndServe` returns
  -- another error than that the server was closed.
  serve_metrics-end :
      (addr : String) (s : ServerState S)
      → (serve_metrics h addr s).0 ≡ end (h.listen_and_serve addr s.http_server).0
  unfolding serve_metrics listen logging modify ◌>>=◌
  serve_metrics-end addr s = served-end (h.listen_and_serve addr s.http_server).0 _

  -- net/http: a server that was shut down says so for ever.
  abbrev StaysClosed : Type 0
  StaysClosed =
      (addr : String) (s : S) → (h.listen_and_serve addr (h.shutdown s).1).0 ≡ server_closed

  -- A server that is stopped does not end the process, whether or not the shutdown failed, even if
  -- its goroutine comes to listen only then.
  serve_metrics-stop_server :
      (addr : String) (s : ServerState S)
      → StaysClosed
      → (serve_metrics h addr (stop_server h s).1).0 ≡ returned tt
  unfolding stop_server shut logging modify ◌>>=◌
  serve_metrics-stop_server addr s closed =
      rw (serve_metrics-end addr (stop_server h s).1, closed addr s.http_server) refl
