-- ===== src/Config/Metrics/Address.antt =====
-- The address that finality-gadget/metrics/config.go gives, and that its port can be read back.
use Prim.Native.String.{◌++◌}
use blitz.Base.{
  ℕ, ◌≤◌, ◌≡◌, ◌↔◌, refl, String, Bool, true, false, ok, ℤ, pos, negsuc, ltb, arith, inl, inr,
  Bool-cases,
}
use blitz.Base.Decimal.{itoa}
use blitz.Config.Metrics.{MetricsConfig, validate, address}

module _ (parses_ip : String → Bool) where
  -- What a valid configuration is, and the text of its address.
  pub record Listens (cfg : MetricsConfig) (addr : String) : Type 0 where
    pub number : ℕ
    pub port : cfg.port ≡ pos number
    pub below : number ≤ 65535
    pub ip : parses_ip cfg.host ≡ true
    pub text : addr ≡ cfg.host ++ ":" ++ itoa (pos number)

  listens :
      (cfg : MetricsConfig) (addr : String) → Listens cfg addr → address parses_ip cfg ≡ ok addr
  unfolding address validate
  listens cfg addr h =
      let inside : ltb 65535 h.number ≡ false = ground (arith, h.below) in
      rw (h.text, h.port, inside, h.ip) refl

  listening :
      (cfg : MetricsConfig) (addr : String) (z : ℤ) (ip : Bool)
      → cfg.port ≡ z
      → parses_ip cfg.host ≡ ip
      → address parses_ip cfg ≡ ok addr
      → Listens cfg addr
  unfolding address validate
  listening cfg addr (pos n) true q is_ip h = elim (Bool-cases (ltb 65535 n)) [
    | inl out ↦ let r = rw (q, out) at h in ground arith
    | inr inside ↦
        let r = rw (q, inside, is_ip) at h in
        (record { number = n; port = q; below = ground arith; ip = is_ip; text = cc })
  ]
  listening cfg addr (pos n) false q is_ip h = elim (Bool-cases (ltb 65535 n)) [
    | inl out ↦ let r = rw (q, out) at h in ground arith
    | inr inside ↦ let r = rw (q, inside, is_ip) at h in ground arith
  ]
  listening cfg addr (negsuc n) ip q is_ip h = let r = rw q at h in ground arith

  -- An address is returned exactly if the port is between 0 and 65535 and the host is an IP
  -- address; it is then the host, a colon and the decimal port.
  pub address_iff :
      (cfg : MetricsConfig) (addr : String) → (address parses_ip cfg ≡ ok addr) ↔ Listens cfg addr
  address_iff cfg addr =
      (listening cfg addr cfg.port (parses_ip cfg.host) refl refl, listens cfg addr)
