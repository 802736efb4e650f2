-- ===== src/Egress/Proxy/Ranges.antt =====
-- The addresses that are refused, as ranges of numbers.
use tik_tok_tech_jam.Base.{
  ℕ, ◌+◌, ◌*◌, ◌<◌, ◌≡◌, ap, Bool, false, ◌&&◌, ◌||◌, List, [], ◌∷◌, any, leb, nat_eq, arith,
}
use tik_tok_tech_jam.Egress.Proxy.Addresses.{
  is_private_octets, is_private_ipv4, is_private_words, embedded,
}

-- an address of IPv4 as one number
abbrev pub address : ℕ → ℕ → ℕ → ℕ → ℕ
address a b c d = ((a * 256 + b) * 256 + c) * 256 + d

abbrev pub within : ℕ → ℕ × ℕ → Bool
within n r = leb r.0 n && leb n r.1

-- 127.0.0.0/8, 0.0.0.0/8, 10.0.0.0/8, 100.64.0.0/10, 169.254.0.0/16, 172.16.0.0/12, 192.168.0.0/16, and
-- 224.0.0.0 with all above it
abbrev pub private_ranges : List (ℕ × ℕ)
private_ranges =
    (2130706432, 2147483647)
    ∷ (0, 16777215)
    ∷ (167772160, 184549375)
    ∷ (1681915904, 1686110207)
    ∷ (2851995648, 2852061183)
    ∷ (2886729728, 2887778303)
    ∷ (3232235520, 3232301055)
    ∷ (3758096384, 4294967295)
    ∷ []

module _ (a b c d : ℕ) (p : a < 256) (q : b < 256) (r : c < 256) (s : d < 256) where
  eight : (n : ℕ) → nat_eq a n ≡ within (address a b c d) (n * 16777216, n * 16777216 + 16777215)
  eight n = ground arith

  -- the octets that a range of the first two fixes
  second :
      (n lo hi : ℕ)
      → lo < 256
      → hi < 256
      → (nat_eq a n && leb lo b && leb b hi)
        ≡ within (address a b c d) (n * 16777216 + lo * 65536, n * 16777216 + hi * 65536 + 65535)
  second n lo hi i j = ground arith

  one :
      (n m : ℕ)
      → m < 256
      → (nat_eq a n && nat_eq b m)
        ≡ within (address a b c d) (n * 16777216 + m * 65536, n * 16777216 + m * 65536 + 65535)
  one n m i = ground arith

  high : leb 224 a ≡ within (address a b c d) (3758096384, 4294967295)
  high = ground arith

  -- The octets are refused exactly if the address is in one of the ranges.
  in_ranges : is_private_octets a b ≡ any (within (address a b c d)) private_ranges
  unfolding is_private_octets
  in_ranges =
      regroup (eight 127) (eight 0) (eight 10) (second 100 64 127 (omega arith) (omega arith))
        (one 169 254 (omega arith)) (second 172 16 31 (omega arith) (omega arith))
        (one 192 168 (omega arith)) high
    where
      regroup :
          {x1 x2 x3 x4 x5 x6 x7 x8 y1 y2 y3 y4 y5 y6 y7 y8 : Bool}
          → x1 ≡ y1
          → x2 ≡ y2
          → x3 ≡ y3
          → x4 ≡ y4
          → x5 ≡ y5
          → x6 ≡ y6
          → x7 ≡ y7
          → x8 ≡ y8
          → ((x1 || x2 || x3) || x4 || x5 || x6 || x7 || x8)
            ≡ (y1 || (y2 || (y3 || (y4 || (y5 || (y6 || (y7 || (y8 || false))))))))
      regroup h1 h2 h3 h4 h5 h6 h7 h8 = ground arith

  embedded_octets :
      embedded (0 ∷ 0 ∷ 0 ∷ 0 ∷ 0 ∷ 65535 ∷ (a * 256 + b) ∷ (c * 256 + d) ∷ []) ≡ a ∷ b ∷ c ∷ d ∷ []
  embedded_octets = ground arith

  -- Four octets are refused exactly if their address is in one of the ranges, and the address of IPv6 that
  -- they are mapped to is refused exactly if they are.
  pub is_private-ranges :
      (is_private_ipv4 (a ∷ b ∷ c ∷ d ∷ []) ≡ any (within (address a b c d)) private_ranges)
      × (is_private_words (0 ∷ 0 ∷ 0 ∷ 0 ∷ 0 ∷ 65535 ∷ (a * 256 + b) ∷ (c * 256 + d) ∷ [])
          ≡ is_private_ipv4 (a ∷ b ∷ c ∷ d ∷ []))
  unfolding is_private_words
  is_private-ranges = (in_ranges, ap is_private_ipv4 embedded_octets)
