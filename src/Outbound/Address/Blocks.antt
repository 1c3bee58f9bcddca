-- ===== src/Outbound/Address/Blocks.antt =====
-- The refused IPv4 addresses as blocks of 32-bit numbers (backend-api/patchforge/outboundFetch.js).
use diiac_patchforge.Prelude.{
  ℕ, ◌+◌, ◌*◌, ◌<◌, ◌^◌, ◌≡◌, refl, arith, Bool, ◌&&◌, ◌||◌, List, [], ◌∷◌, ltb, leb, any, ◌==◌,
}
use diiac_patchforge.Outbound.Address.{is_disallowed_v4}

-- A block of addresses: its first, and how many there are.
pub record Block : Type 0 where
  pub base : ℕ
  pub size : ℕ

abbrev pub in_block : ℕ → Block → Bool
in_block n k = leb k.base n && ltb n (k.base + k.size)

-- the number of an address
abbrev pub number_of : ℕ → ℕ → ℕ → ℕ → ℕ
number_of a b c d = a * 16777216 + b * 65536 + c * 256 + d

module _ (a b c d : ℕ) (ha : a < 256) (hb : b < 256) (hc : c < 256) (hd : d < 256) where
  block_8 :
      (k : ℕ)
      → (a == k) ≡ in_block (number_of a b c d) (record { base = k * 16777216; size = 16777216 })
  block_8 k = ground arith

  block_16 :
      (k l : ℕ)
      → l < 256
      → (a == k && b == l)
        ≡ in_block (number_of a b c d) (record { base = k * 16777216 + l * 65536; size = 65536 })
  block_16 k l h = ground arith

  block_24 :
      (k l m : ℕ)
      → l < 256
      → m < 256
      → (a == k && b == l && c == m)
        ≡ in_block
            (number_of a b c d)
            (record { base = k * 16777216 + l * 65536 + m * 256; size = 256 })
  block_24 k l m h h' = ground arith

  block_10 :
      (a == 100 && leb 64 b && leb b 127)
      ≡ in_block (number_of a b c d) (record { base = 1681915904; size = 4194304 })
  block_10 = ground arith

  block_12 :
      (a == 172 && leb 16 b && leb b 31)
      ≡ in_block (number_of a b c d) (record { base = 2886729728; size = 1048576 })
  block_12 = ground arith

  block_15 :
      (a == 198 && (b == 18 || b == 19))
      ≡ in_block (number_of a b c d) (record { base = 3323068416; size = 131072 })
  block_15 = ground arith

  block_3 :
      leb 224 a ≡ in_block (number_of a b c d) (record { base = 3758096384; size = 536870912 })
  block_3 = ground arith

-- The blocks of private, local and reserved addresses.
abbrev pub special_blocks : List Block
special_blocks =
    record { base = number_of 0 0 0 0; size = 2 ^ 24 }
    ∷ record { base = number_of 10 0 0 0; size = 2 ^ 24 }
    ∷ record { base = number_of 127 0 0 0; size = 2 ^ 24 }
    ∷ record { base = number_of 100 64 0 0; size = 2 ^ 22 }
    ∷ record { base = number_of 169 254 0 0; size = 2 ^ 16 }
    ∷ record { base = number_of 172 16 0 0; size = 2 ^ 20 }
    ∷ record { base = number_of 192 0 0 0; size = 2 ^ 8 }
    ∷ record { base = number_of 192 168 0 0; size = 2 ^ 16 }
    ∷ record { base = number_of 192 0 2 0; size = 2 ^ 8 }
    ∷ record { base = number_of 192 88 99 0; size = 2 ^ 8 }
    ∷ record { base = number_of 198 18 0 0; size = 2 ^ 17 }
    ∷ record { base = number_of 198 51 100 0; size = 2 ^ 8 }
    ∷ record { base = number_of 203 0 113 0; size = 2 ^ 8 }
    ∷ record { base = number_of 224 0 0 0; size = 2 ^ 29 }
    ∷ []

or_both : {p q r s : Bool} → p ≡ q → r ≡ s → (p || r) ≡ (q || s)
or_both h g = cc

-- The tests on the octets of an IPv4 address refuse exactly the addresses of the special blocks.
pub is_disallowed_v4-special_blocks :
    (a b c d : ℕ)
    → a < 256
    → b < 256
    → c < 256
    → d < 256
    → is_disallowed_v4 a b c ≡ any (in_block (number_of a b c d)) special_blocks
unfolding is_disallowed_v4
is_disallowed_v4-special_blocks a b c d ha hb hc hd = or_both (block_8 a b c d ha hb hc hd 0) (
    or_both (block_8 a b c d ha hb hc hd 10) (
      or_both (block_8 a b c d ha hb hc hd 127) (
        or_both (block_10 a b c d ha hb hc hd) (
          or_both (block_16 a b c d ha hb hc hd 169 254 (omega arith)) (
            or_both (block_12 a b c d ha hb hc hd) (
              or_both (block_24 a b c d ha hb hc hd 192 0 0 (omega arith) (omega arith)) (
                or_both (block_16 a b c d ha hb hc hd 192 168 (omega arith)) (
                  or_both (block_24 a b c d ha hb hc hd 192 0 2 (omega arith) (omega arith)) (
                    or_both (block_24 a b c d ha hb hc hd 192 88 99 (omega arith) (omega arith)) (
                      or_both (block_15 a b c d ha hb hc hd) (
                        or_both
                          (block_24 a b c d ha hb hc hd 198 51 100 (omega arith) (omega arith))
                          (or_both
                            (block_24 a b c d ha hb hc hd 203 0 113 (omega arith) (omega arith))
                            (or_both (block_3 a b c d ha hb hc hd) refl)))))))))))))
