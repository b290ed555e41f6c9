-- ===== src/Ssrf/Prefix.antt =====
-- src/ssrf.rs: what prefix matching decides, over the numbers that the addresses stand for.
use native.Mathlib.Nat.{one-le-pow, mul-div_cancel, div-div-eq-div-mul, div-eq_of_lt}
use ait.Base.{
  ℕ, zero, suc, sym, ◌∙◌, if◌then◌else◌, ◌+◌, ◌-◌, ◌*◌, ◌/◌, ◌%◌, ◌^◌, ◌≤◌, ◌<◌, bit_and, ◌≡◌, ap,
  true, false, arith, ◌==◌, ==_iff,
}
use ait.Base.Bits.{bit_and_high_mask, pow_two-add}
use ait.Ssrf.Addr.{
  Ipv4Addr, Ipv6Addr, IsV4, IsV6, u32_from, u128_from, mask, ipv4_in_prefix, ipv6_in_prefix,
}

pub u32_from-lt : (ip : Ipv4Addr) → IsV4 ip → u32_from ip < 2 ^ 32
unfolding u32_from
u32_from-lt ip h = omega arith

pub u128_from-lt : (ip : Ipv6Addr) → IsV6 ip → u128_from ip < 2 ^ 128
unfolding u128_from
u128_from-lt ip h = omega arith

mask_at :
    (w n k a : ℕ)
    → n + k ≡ w
    → a < 2 ^ w
    → bit_and a (((2 ^ w - 1) * 2 ^ k) % 2 ^ w) ≡ a / 2 ^ k * 2 ^ k
mask_at w n k a e fits = rw (← e) (bit_and_high_mask n k a (rw e fits))

bit_and-mask :
    (width len x : ℕ)
    → len ≤ width
    → x < 2 ^ width
    → bit_and x (mask width len) ≡ x / 2 ^ (width - len) * 2 ^ (width - len)
bit_and-mask width len x h fits = mask_at width len (width - len) x (omega arith) fits

==-congr : (a b c d : ℕ) → (a ≡ b → c ≡ d) → (c ≡ d → a ≡ b) → (a == b) ≡ (c == d)
==-congr a b c d f g = ground arith

-- Equality under the mask is equality of the leading `len` bits.
masked_eq :
    (width len x y : ℕ)
    → len ≤ width
    → x < 2 ^ width
    → y < 2 ^ width
    → (bit_and x (mask width len) == bit_and y (mask width len))
      ≡ (x / 2 ^ (width - len) == y / 2 ^ (width - len))
masked_eq width len x y h hx hy =
    let k = 2 ^ (width - len) in
    let pos : 0 < k = omega (arith, one-le-pow (width - len) 2) in
    rw (bit_and-mask width len x h hx, bit_and-mask width len y h hy)
      (==-congr (x / k * k) (y / k * k) (x / k) (y / k)
        (λ e.
          sym (mul-div_cancel (x / k) pos) ∙ ap (λ (t : ℕ). t / k) e ∙ mul-div_cancel (y / k) pos)
        (λ e. ap (λ (t : ℕ). t * k) e))

-- The test of both families, for every length up to the width: none of the bits, or the mask.
leading_eq :
    (width len x y : ℕ)
    → len ≤ width
    → x < 2 ^ width
    → y < 2 ^ width
    → (if len == 0 then true else bit_and x (mask width len) == bit_and y (mask width len))
      ≡ (x / 2 ^ (width - len) == y / 2 ^ (width - len))
leading_eq width zero x y h hx hy =
    let e : width - 0 ≡ width = omega arith in rw (e, div-eq_of_lt hx, div-eq_of_lt hy)
leading_eq width (suc len) x y h hx hy =
    let e : (suc len == 0) ≡ false = ground arith in rw e (masked_eq width (suc len) x y h hx hy)

-- `ipv4_in_prefix` compares the leading `len` bits, for every length from 0 to 32.
pub ipv4_in_prefix-eq :
    (ip prefix : Ipv4Addr) (len : ℕ)
    → IsV4 ip
    → IsV4 prefix
    → len ≤ 32
    → ipv4_in_prefix ip prefix len
      ≡ (u32_from ip / 2 ^ (32 - len) == u32_from prefix / 2 ^ (32 - len))
unfolding ipv4_in_prefix
ipv4_in_prefix-eq ip prefix len hi hp h =
    leading_eq 32 len _ _ h (u32_from-lt ip hi) (u32_from-lt prefix hp)

-- `ipv6_in_prefix` compares the leading `len` bits, for every length from 0 to 128.
pub ipv6_in_prefix-eq :
    (ip prefix : Ipv6Addr) (len : ℕ)
    → IsV6 ip
    → IsV6 prefix
    → len ≤ 128
    → ipv6_in_prefix ip prefix len
      ≡ (u128_from ip / 2 ^ (128 - len) == u128_from prefix / 2 ^ (128 - len))
unfolding ipv6_in_prefix
ipv6_in_prefix-eq ip prefix len hi hp h =
    leading_eq 128 len _ _ h (u128_from-lt ip hi) (u128_from-lt prefix hp)

quotient_mono : (x y j k : ℕ) → x / 2 ^ j ≡ y / 2 ^ j → x / 2 ^ (j + k) ≡ y / 2 ^ (j + k)
quotient_mono x y j k e =
    rw
      (
        pow_two-add j k,
        ← div-div-eq-div-mul x (2 ^ j) (2 ^ k),
        ← div-div-eq-div-mul y (2 ^ j) (2 ^ k),
      )
      (ap (λ (t : ℕ). t / 2 ^ k) e)

-- A longer prefix is a narrower one: what it matches, every shorter prefix of the same address
-- matches too.
pub ipv4_in_prefix_mono :
    (ip prefix : Ipv4Addr) (len len' : ℕ)
    → IsV4 ip
    → IsV4 prefix
    → len' ≤ len
    → len ≤ 32
    → ipv4_in_prefix ip prefix len ≡ true
    → ipv4_in_prefix ip prefix len' ≡ true
ipv4_in_prefix_mono ip prefix len len' hi hp h h' e =
    let x = u32_from ip in
    let y = u32_from prefix in
    let same : x / 2 ^ (32 - len) ≡ y / 2 ^ (32 - len) =
      (==_iff _ _).0 (sym (ipv4_in_prefix-eq ip prefix len hi hp h') ∙ e) in
    let split : 32 - len' ≡ 32 - len + (len - len') = omega arith in
    ipv4_in_prefix-eq ip prefix len' hi hp (omega arith)
    ∙ (==_iff _ _).1 (rw split (quotient_mono x y (32 - len) (len - len') same))
