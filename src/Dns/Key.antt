-- ===== src/Dns/Key.antt =====
-- The 64-bit keys of lars_dns/src/dns_route.cc and lars_dns/src/subscribe.cc, packed from two `int`s.
use lars_study.Prelude.{
  ℕ, suc, ◌*◌, ◌/◌, ◌%◌, ◌≡◌, ◌<◌, arith, ℤ, pos, negsuc, to_int, to_size, add64, u32_mod, u64_mod,
  int_bound, IsInt, to_int_small, to_size_pos, to_u32, to_u32-lt, to_int-to_u32, sym, ap, ◌∙◌,
}

-- ((uint64_t)modid << 32) + cmdid
unfoldable pub mod_key : ℤ → ℤ → ℕ
mod_key modid cmdid = add64 (to_size modid * u32_mod % u64_mod) (to_size cmdid)

-- int modid = modcmd >> 32; int cmdid = (uint32_t)modcmd
unfoldable pub modid_of : ℕ → ℤ
modid_of modcmd = to_int (modcmd / u32_mod)

unfoldable pub cmdid_of : ℕ → ℤ
cmdid_of modcmd = to_int modcmd

halves :
    (m c : ℕ)
    → m < u32_mod
    → c < u32_mod
    → (add64 (m * u32_mod % u64_mod) c / u32_mod ≡ m)
      × (add64 (m * u32_mod % u64_mod) c % u32_mod ≡ c)
unfolding add64
halves m c h k = (omega arith, omega arith)

high_half : (m : ℤ) → IsInt m → to_size m * u32_mod % u64_mod ≡ to_u32 m * u32_mod % u64_mod
unfolding to_size to_u32
high_half (pos m) h = omega arith
high_half (negsuc m) h = omega arith

to_int_mod : (n : ℕ) → to_int (n % u32_mod) ≡ to_int n
unfolding to_int
to_int_mod n = let e : n % u32_mod % u32_mod ≡ n % u32_mod = omega arith in rw e

-- A key gives its two halves back where the second is not negative.
pub key_roundtrip :
    (m : ℤ) (c : ℕ)
    → IsInt m
    → c < int_bound
    → (modid_of (mod_key m (pos c)) ≡ m) × (cmdid_of (mod_key m (pos c)) ≡ pos c)
unfolding mod_key modid_of cmdid_of
key_roundtrip m c h k =
    let (high, low) = halves (to_u32 m) c (to_u32-lt m) (omega arith) in
    let low' =
      sym (to_int_mod (add64 (to_u32 m * u32_mod % u64_mod) c))
      ∙ ap to_int low
      ∙ to_int_small c k in
    rw (high_half m h, to_size_pos c k) (ap to_int high ∙ to_int-to_u32 m h, low')

-- A negative second half borrows from the first, which then reads back as one less.
pub key_borrows :
    (m c : ℕ)
    → suc m < int_bound
    → c < int_bound
    → (modid_of (mod_key (pos (suc m)) (negsuc c)) ≡ pos m)
      × (cmdid_of (mod_key (pos (suc m)) (negsuc c)) ≡ negsuc c)
unfolding mod_key modid_of cmdid_of to_size to_int add64
key_borrows m c h k = (ground arith, ground arith)
