-- ===== src/Egress/Proxy/Public.antt =====
-- What it means for an address of IPv4 that it is not reported as private.
use tik_tok_tech_jam.Base.{
  ℕ, ◌≡◌, sym, ◌∙◌, String, false, inl, inr, Option, none, some, List, [], ◌∷◌, any, nat_eq,
  Bool-cases, if◌then◌else◌,
}
use tik_tok_tech_jam.Egress.Proxy.Addresses.{
  parse_ipv4, is_private_ipv4, is_private_address, holds_of,
}
use tik_tok_tech_jam.Egress.Proxy.Octets.{IfSome, Counted, parse-Counted}
use tik_tok_tech_jam.Egress.Proxy.Ranges.{address, within, private_ranges, is_private-ranges}

-- four octets whose address is in none of the ranges
abbrev pub OutOfRange : List ℕ → Type 0
OutOfRange (a ∷ b ∷ c ∷ d ∷ []) = any (within (address a b c d)) private_ranges ≡ false
OutOfRange _ = Unit

-- An address of IPv4 that parses is in none of the ranges; nothing is said of others.
abbrev pub OutOfRanges : (String → ℕ) → String → Type 0
OutOfRanges is_ip a = IfSome OutOfRange (if nat_eq (is_ip a) 4 then parse_ipv4 a else none)

octets-OutOfRange :
    (o : Option (List ℕ))
    → IfSome (Counted 256 4) o
    → holds_of is_private_ipv4 o ≡ false
    → IfSome OutOfRange o
octets-OutOfRange none h k = tt
octets-OutOfRange (some (a ∷ b ∷ c ∷ d ∷ [])) h k =
    sym (is_private-ranges a b c d h.0.0 h.0.1.0 h.0.1.1.0 h.0.1.1.1.0).0 ∙ k
octets-OutOfRange (some _) h k = tt

pub is_private_address-OutOfRanges :
    (is_ip : String → ℕ) (a : String) → is_private_address is_ip a ≡ false → OutOfRanges is_ip a
unfolding is_private_address
is_private_address-OutOfRanges is_ip a h = elim (Bool-cases (nat_eq (is_ip a) 4)) [
  | inl e ↦ rw e (octets-OutOfRange (parse_ipv4 a) (parse-Counted a).0 (rw e at h))
  | inr e ↦ rw e tt
]
