-- ===== src/Host/Ranges.antt =====
-- The comparison byte by byte of an IPv4 address with the ends of a private range.
use caspaste.Prelude.{
  ℕ, ◌+◌, ◌-◌, ◌*◌, ◌^◌, ◌<◌, ◌≡◌, ltb, leb, ◌&&◌, ◌||◌, Bool, some, [], ◌∷◌, ◌++◌, ◌∙◌, has_prefix,
  Text, refl, arith,
}
use caspaste.Host.Client.{bytes_in_range, private_v4, mapped_prefix, is_private_ip, to_4}

-- An address as a number of 32 bits.
abbrev pub number : ℕ → ℕ → ℕ → ℕ → ℕ
number a b c d = ((a * 256 + b) * 256 + c) * 256 + d

-- The addresses of a prefix of `bits` bits, `a.b.0.0` the first of them.
abbrev pub within : ℕ → ℕ → ℕ → ℕ → Bool
within n a b bits = leb (number a b 0 0) n && ltb n (number a b 0 0 + 2 ^ (32 - bits))

-- 10.0.0.0/8, 172.16.0.0/12, 192.168.0.0/16 and 127.0.0.0/8.
abbrev pub in_private_block : ℕ → Bool
in_private_block n =
    within n 10 0 8 || within n 172 16 12 || within n 192 168 16 || within n 127 0 8

-- The bytes of an IPv4 address, as `net.ParseIP` gives them.
abbrev pub v4 : ℕ → ℕ → ℕ → ℕ → Text
v4 a b c d = mapped_prefix ++ a ∷ b ∷ c ∷ d ∷ []

module _ (a b c d : ℕ) (ha : a < 256) (hb : b < 256) (hc : c < 256) (hd : d < 256) where
  block_10 :
      bytes_in_range (a ∷ b ∷ c ∷ d ∷ []) (10 ∷ 0 ∷ 0 ∷ 0 ∷ []) (10 ∷ 255 ∷ 255 ∷ 255 ∷ [])
      ≡ within (number a b c d) 10 0 8
  unfolding bytes_in_range
  block_10 = ground arith

  block_172 :
      bytes_in_range (a ∷ b ∷ c ∷ d ∷ []) (172 ∷ 16 ∷ 0 ∷ 0 ∷ []) (172 ∷ 31 ∷ 255 ∷ 255 ∷ [])
      ≡ within (number a b c d) 172 16 12
  unfolding bytes_in_range
  block_172 = ground arith

  block_192 :
      bytes_in_range (a ∷ b ∷ c ∷ d ∷ []) (192 ∷ 168 ∷ 0 ∷ 0 ∷ []) (192 ∷ 168 ∷ 255 ∷ 255 ∷ [])
      ≡ within (number a b c d) 192 168 16
  unfolding bytes_in_range
  block_192 = ground arith

  block_127 :
      bytes_in_range (a ∷ b ∷ c ∷ d ∷ []) (127 ∷ 0 ∷ 0 ∷ 0 ∷ []) (127 ∷ 255 ∷ 255 ∷ 255 ∷ [])
      ≡ within (number a b c d) 127 0 8
  unfolding bytes_in_range
  block_127 = ground arith

  private_v4-v4 : is_private_ip (some (v4 a b c d)) ≡ private_v4 (a ∷ b ∷ c ∷ d ∷ [])
  unfolding is_private_ip to_4 has_prefix
  private_v4-v4 = refl

  pub is_private_ip-number : is_private_ip (some (v4 a b c d)) ≡ in_private_block (number a b c d)
  unfolding private_v4
  is_private_ip-number = private_v4-v4 ∙ rw (block_10, block_172, block_192, block_127) refl
