-- ===== src/Concurrent/Turn.antt =====
-- The search of finality-gadget/rpc/provider ends where the answers turn, whatever other
-- goroutines do in between.
use blitz.Base.{
  ℕ, zero, suc, ◌+◌, ◌/◌, ◌^◌, ◌≤◌, ◌<◌, ◌≡◌, refl, inl, inr, Bool, true, false, ltb, ◌==◌, nat_eq,
  u64, ok, arith, Bool-cases,
}
use native.Mathlib.Decide.{dec_le}
use blitz.Exec.{modify}
use blitz.Exec.Preserves.{Preserves}
use blitz.Clients.{Clients}
use blitz.Provider.{World, set_last_finalized}
use blitz.Finality.Range.{halves}
use blitz.Finality.Newest.{IsTurn}
use blitz.Threads.{Steps, locked}
use blitz.Threads.Guarded.{Gives, Gives-answer, Gives-locked, Gives-wrapping, Gives-then}
use blitz.Concurrent.{by_number_steps}
use blitz.Concurrent.Search.{checked_steps, search_between_steps, from_to_steps}

module _ (c : Clients) {P : World → Type 0} (q : ℕ → Bool) (head : ℕ) (small : head < 2 ^ 63)
    (May : ℕ → Type 0) (heights : (h : ℕ) → May h → Preserves P (set_last_finalized h))
    (may : (h k : ℕ) → 0 < h → h ≤ k → k ≤ head → q k ≡ true → May h)
    (answers : (h : ℕ) → h ≤ head → Gives P (by_number_steps c h) (ok (q h))) where
  pub Gives-set : (h : ℕ) → May h → Gives P (locked (set_last_finalized h)) (ok tt)
  unfolding set_last_finalized modify
  Gives-set h m =
      Gives-locked _ _ (record { returns = λ w _. refl; keeps = λ w p. (heights h m).after w p })

  pub Gives-checked : (h : ℕ) → h ≤ head → Gives P (checked_steps c h) (ok (q h))
  Gives-checked h le = Gives-wrapping _ _ _ (answers h le)

  module _ (again : ℕ → ℕ → Steps World ℕ) (from to : ℕ) where
    between-stop :
        from + 1 ≡ to → to ≤ head → Gives P (search_between_steps c again from to) (ok from)
    unfolding search_between_steps
    between-stop e le =
        let differ : (from == to) ≡ false = ground arith in
        let next : (u64 (from + 1) == to) ≡ true = ground arith in
        rw (differ, next) (Gives-answer from)

    between-probe :
        (r : ℕ)
        → 0 < from
        → from + 2 ≤ to
        → to ≤ head
        → (q (u64 (from + to + 1) / 2) ≡ true → Gives P (again (u64 (from + to + 1) / 2) to) (ok r))
        → (q (u64 (from + to + 1) / 2) ≡ false
            → Gives P (again from (u64 (from + to + 1) / 2)) (ok r))
        → Gives P (search_between_steps c again from to) (ok r)
    unfolding search_between_steps
    between-probe r pos wide le high low =
        let differ : (from == to) ≡ false = ground arith in
        let far : (u64 (from + 1) == to) ≡ false = ground arith in
        rw (differ, far)
          (Gives-then _ (q (u64 (from + to + 1) / 2)) _ _
            (Gives-checked (u64 (from + to + 1) / 2) (omega arith))
            (elim (Bool-cases (q (u64 (from + to + 1) / 2))) [
              | inl yes' ↦ rw yes' (
                  Gives-then _ tt _ _
                    (Gives-set _ (may _ _ (ground arith) (ground arith) (omega arith) yes'))
                    (high yes'))
              | inr no' ↦ rw no' (low no')
            ]))

  -- The search from a lower to a higher number ends where the answers turn.
  pub from_to-IsTurn :
      (k fuel from to : ℕ)
      → 0 < from
      → from < to
      → to ≤ head
      → to ≤ from + 2 ^ k
      → k < fuel
      → (r : ℕ) × Gives P (from_to_steps c fuel from to) (ok r) × IsTurn q from to r
  unfolding from_to_steps
  from_to-IsTurn k zero from to pos lt le fits more = elim more [ ]
  from_to-IsTurn zero (suc fuel) from to pos lt le fits more =
      let ordered : ltb to from ≡ false = ground arith in
      (from, rw ordered (between-stop _ from to (omega arith) le), ground arith)
  from_to-IsTurn (suc k) (suc fuel) from to pos lt le fits more =
      let ordered : ltb to from ≡ false = ground arith in
      elim (dec_le (from + 2) to) [
        | no near ↦ (from, rw ordered (between-stop _ from to (omega arith) le), ground arith)
        | yes wide ↦
            let h = halves k from to (omega arith) wide fits in
            elim (Bool-cases (q (u64 (from + to + 1) / 2))) [
              | inl high ↦
                  let (r, found, turn) =
                    from_to-IsTurn k fuel (u64 (from + to + 1) / 2) to (omega arith) h.below le
                      h.upper (omega arith) in
                  (
                    r,
                    rw ordered (between-probe _ from to r pos wide le (λ _. found) (λ e. cc)),
                    ground arith,
                  )
              | inr low ↦
                  let (r, found, turn) =
                    from_to-IsTurn k fuel from (u64 (from + to + 1) / 2) pos h.above (omega arith)
                      h.lower (omega arith) in
                  (
                    r,
                    rw ordered (between-probe _ from to r pos wide le (λ e. cc) (λ _. found)),
                    ground arith,
                  )
            ]
      ]
