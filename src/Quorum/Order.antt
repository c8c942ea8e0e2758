-- ===== src/Quorum/Order.antt =====
-- That the order in which Go goes through the map of powers does not matter.
use blitz.Base.{
  ℕ, ◌≡◌, refl, sym, ap, ◌∙◌, String, Option, none, some, List, [], ◌∷◌, arith, ◌==◌, string_eq,
  u64, if◌then◌else◌,
}
use blitz.Base.GoMap.{GoMap, lookup}
use blitz.Quorum.{total_power, add_voted, voted_power_from, voted_power, has_quorum}
use blitz.Quorum.Weight.{sum_powers, total_power-eq, DistinctKeys}

-- The same entries in two orders: what two loops over one map may see.
pub data Reordered : GoMap String ℕ → GoMap String ℕ → Type 0 where
  nothing : Reordered [] []
  first :
      (entry : String × ℕ) {m n : GoMap String ℕ}
      → Reordered m n
      → Reordered (entry ∷ m) (entry ∷ n)
  swapped :
      (one other : String × ℕ) (rest : GoMap String ℕ)
      → Reordered (one ∷ other ∷ rest) (other ∷ one ∷ rest)
  twice : {m n o : GoMap String ℕ} → Reordered m n → Reordered n o → Reordered m o

sum_powers-Reordered : {m n : GoMap String ℕ} → Reordered m n → sum_powers m ≡ sum_powers n
sum_powers-Reordered nothing = refl
sum_powers-Reordered (first (a, v) h) = omega (arith, sum_powers-Reordered h)
sum_powers-Reordered (swapped (a, v) (b, w) rest) = omega arith
sum_powers-Reordered (twice h k) = sum_powers-Reordered h ∙ sum_powers-Reordered k

swapped-lookup :
    (a b : String) (v w : ℕ) (rest : GoMap String ℕ) (k : String)
    → DistinctKeys ((a, v) ∷ (b, w) ∷ rest)
    → lookup k ((a, v) ∷ (b, w) ∷ rest) ≡ lookup k ((b, w) ∷ (a, v) ∷ rest)
unfolding lookup
swapped-lookup a b v w rest k d =
    ground (arith, string_eq.same_iff a k, string_eq.same_iff b k, string_eq.same_iff b a)

swapped-DistinctKeys :
    (a b : String) (v w : ℕ) (rest : GoMap String ℕ)
    → DistinctKeys ((a, v) ∷ (b, w) ∷ rest)
    → DistinctKeys ((b, w) ∷ (a, v) ∷ rest)
unfolding lookup
swapped-DistinctKeys a b v w rest d = ground (arith, string_eq.same_iff a b, string_eq.same_iff b a)

-- In another order no key stands twice either, and each key has the same value.
lookup-Reordered :
    {m n : GoMap String ℕ}
    → Reordered m n
    → DistinctKeys m
    → DistinctKeys n × ((k : String) → lookup k m ≡ lookup k n)
unfolding lookup
lookup-Reordered nothing d = (d, λ k. refl)
lookup-Reordered (first (a, v) h) d =
    let r = lookup-Reordered h d.1 in
    ((sym (r.1 a) ∙ d.0, r.0), λ k. ap (λ o. if a == k then some v else o) (r.1 k))
lookup-Reordered (swapped (a, v) (b, w) rest) d =
    (swapped-DistinctKeys a b v w rest d, λ k. swapped-lookup a b v w rest k d)
lookup-Reordered (twice h k) d =
    let r = lookup-Reordered h d in let q = lookup-Reordered k r.0 in (q.0, λ a. r.1 a ∙ q.1 a)

voted_power_from-same :
    (m n : GoMap String ℕ) (voted : ℕ) (keys : List String)
    → ((k : String) → lookup k m ≡ lookup k n)
    → voted_power_from m voted keys ≡ voted_power_from n voted keys
unfolding voted_power_from
voted_power_from-same m n voted [] h = refl
voted_power_from-same m n voted (key ∷ keys) h =
    ap (λ o. voted_power_from m (add_voted voted o) keys) (h key)
    ∙ voted_power_from-same m n (add_voted voted (lookup key n)) keys h

total_power-Reordered : (m n : GoMap String ℕ) → Reordered m n → total_power m ≡ total_power n
total_power-Reordered m n h =
    total_power-eq m ∙ ap u64 (sum_powers-Reordered h) ∙ sym (total_power-eq n)

-- The order in which Go hands out the entries of the map, in which no key stands twice, changes
-- neither the total power nor the test on any list of voters, also where the sums overflow.
pub has_quorum-Reordered :
    (m n : GoMap String ℕ) (voters : Option (List String))
    → DistinctKeys m
    → Reordered m n
    → (total_power m ≡ total_power n)
      × (has_quorum m (total_power m) voters ≡ has_quorum n (total_power n) voters)
unfolding has_quorum voted_power
has_quorum-Reordered m n none d h = (total_power-Reordered m n h, refl)
has_quorum-Reordered m n (some keys) d h =
    let total = total_power-Reordered m n h in
    let voted = voted_power_from-same m n 0 keys (lookup-Reordered h d).1 in
    (total, rw (total, voted) refl)
