-- ===== src/Rpc/Serving/Endings.antt =====
-- How the HTTP server of finality-gadget/rpc/rpc.go ends.
use blitz.Base.{
  ◌+◌, ◌<◌, ◌^◌, ◌≡◌, ◌⊎◌, refl, ap, ◌∙◌, inl, inr, String, Bool, List, [], ◌∷◌, length, Error, ℤ,
  u64, Reply, Reply-cases, fails, arith,
}
use blitz.Process.{Outcome, returned, exited, pure, modify, outcome, or_exit, deferring, ◌>>=◌}
use blitz.Clients.{Clients}
use blitz.Provider.{World}
use blitz.Rpc.{EthRpc, init, get_block_by_number}
use blitz.Rpc.Serving.{HttpStack, ServerWorld, init_handler, serve_http, serve_all, start_server}

module _ (c : Clients) (rpc : EthRpc) where
  -- The handler is asked these requests, in this order.
  pub data Answered : List (ℤ × Bool) → World → World → Type 0 where
    all : (w : World) → Answered [] w w
    one :
        (request : ℤ × Bool) (more : List (ℤ × Bool)) (w u : World)
        → Answered more (get_block_by_number c rpc request.0 request.1 w).1 u
        → Answered (request ∷ more) w u

  -- What the requests leave: the provider alone changes, and each has had a number.
  record Handled (requests : List (ℤ × Bool)) (s : ServerWorld) : Type 0 where
    gadget : World
    answered : Answered requests s.gadget gadget
    handled :
        serve_all c rpc requests s
        ≡ (returned tt, record s { gadget = gadget; id = u64 (s.id + length requests) })

  serve_all-Handled :
      (requests : List (ℤ × Bool)) (s : ServerWorld) → s.id < 2 ^ 64 → Handled requests s
  unfolding serve_all serve_http modify pure ◌>>=◌
  serve_all-Handled [] s small = record {
    gadget = s.gadget;
    answered = all s.gadget;
    handled = ap (λ k. (returned tt, record s { id = k })) (omega (arith, small));
  }
  serve_all-Handled (request ∷ more) s small =
      let next = record s {
        id = u64 (s.id + 1);
        gadget = (get_block_by_number c rpc request.0 request.1 s.gadget).1;
      } in
      let rest = serve_all-Handled more next (omega arith) in
      record {
        gadget = rest.gadget;
        answered = one request more s.gadget rest.gadget rest.answered;
        handled =
            rest.handled
            ∙ ap (λ k. (returned tt, record s { gadget = rest.gadget; id = k })) (omega arith);
      }

  -- Where `StartServer` ends: neither an endpoint nor a count of the wait group is left. Its
  -- provider has served `init`, and exactly these requests behind it, unless it ends by an exit
  -- before them, because go-ethereum refuses the registration or the endpoint.
  pub record IsShut (registered : Reply (Unit {0})) (endpoint : Reply String)
      (requests : List (ℤ × Bool)) (s : ServerWorld) (o : Outcome (Unit {0})) (u : ServerWorld)
      : Type 0 where
    pub endpoints : u.endpoints ≡ s.endpoints
    pub wg : u.wg ≡ s.wg
    pub ending :
        ((o ≡ returned tt)
          × Answered requests (init c rpc s.gadget).1 u.gadget
          × (u.id ≡ u64 (s.id + length requests)))
        ⊎ ((m : String) × (x : Error) × ((registered ≡ fails m) ⊎ (endpoint ≡ fails m))
            × (o ≡ exited x)
            × (u.gadget ≡ (init c rpc s.gadget).1)
            × (u.id ≡ s.id))

  exits :
      (registered : Reply (Unit {0})) (endpoint : Reply String) (s : ServerWorld)
      (requests : List (ℤ × Bool)) (m : String) (x : Error)
      → ((registered ≡ fails m) ⊎ (endpoint ≡ fails m))
      → IsShut registered endpoint requests s
          (exited x)
          (record s { gadget = (init c rpc s.gadget).1 })
  exits registered endpoint s requests m x refused = record {
    endpoints = refl;
    wg = refl;
    ending = inr (m, x, refused, refl, refl, refl);
  }

  -- However go-ethereum answers, and whatever is asked, with fewer than 2^64 requests counted
  -- before, `StartServer` ends, and as many endpoints are open, and the wait group counts as many,
  -- as before. Either it returns, its provider has served `init` and then each of these requests,
  -- in their order, and it has counted every one; or go-ethereum has refused the registration or
  -- the endpoint, and it exits behind `init` alone.
  pub start_server-IsShut :
      (stack : HttpStack) (addr : String) (requests : List (ℤ × Bool)) (s : ServerWorld)
      → s.id < 2 ^ 64
      → IsShut stack.register_apis
          (stack.start_http_endpoint addr)
          requests
          s
          (start_server c rpc stack addr requests s).0
          (start_server c rpc stack addr requests s).1
  unfolding start_server init_handler or_exit outcome deferring modify ◌>>=◌
  start_server-IsShut stack addr requests s small =
      let ready = record s {
        gadget = (init c rpc s.gadget).1;
        endpoints = s.endpoints + 1;
        wg = s.wg + 1;
      } in
      let all = serve_all-Handled requests ready small in
      elim (Reply-cases stack.register_apis) [
        | inr (m, q) ↦ rw q (exits _ _ s requests m _ (inl refl))
        | inl (u, q) ↦ elim (Reply-cases (stack.start_http_endpoint addr)) [
          | inr (m, r) ↦ rw (q, r) (exits _ _ s requests m _ (inr refl))
          | inl (bound, r) ↦
              rw (q, r, all.handled)
                (record {
                  endpoints = omega arith;
                  wg = omega arith;
                  ending = inl (refl, all.answered, refl);
                })
        ]
      ]
