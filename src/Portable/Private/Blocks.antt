-- ===== src/Portable/Private/Blocks.antt =====
-- The private addresses as blocks of the address space.
use zorin_host_agent.Prelude.{
  ℕ, ◌+◌, ◌*◌, ◌^◌, ◌<◌, ◌≡◌, Bool, ◌&&◌, ◌||◌, [], ◌∷◌, ◌++◌, arith, ltb, leb,
}
use zorin_host_agent.Text.{text_eq}
use zorin_host_agent.Net.Address.{v4_prefix, to4}
use zorin_host_agent.Portable.Private.{is_private_v4, is_private_ipv4}

-- The address as a number of 32 bits.
abbrev number_of : ℕ → ℕ → ℕ → ℕ → ℕ
number_of a b c d = a * 16777216 + b * 65536 + c * 256 + d

-- Whether the number lies in the block of `size` numbers that begins at `start`.
abbrev in_block : ℕ → ℕ → ℕ → Bool
in_block start size n = leb start n && ltb n (start + size)

-- An IPv4 address, in 4 bytes or in 16, is private exactly if its number lies in one of the blocks
-- 10.0.0.0/8, 172.16.0.0/12, 192.168.0.0/16 and 169.254.0.0/16.
pub is_private_ipv4-blocks :
    (a b c d : ℕ)
    → a < 256
    → b < 256
    → c < 256
    → d < 256
    → let n = number_of a b c d in
      let blocks =
        in_block (number_of 10 0 0 0) (2 ^ 24) n
        || in_block (number_of 172 16 0 0) (2 ^ 20) n
        || in_block (number_of 192 168 0 0) (2 ^ 16) n
        || in_block (number_of 169 254 0 0) (2 ^ 16) n in
      (is_private_ipv4 (a ∷ b ∷ c ∷ d ∷ []) ≡ blocks)
      × (is_private_ipv4 (v4_prefix ++ a ∷ b ∷ c ∷ d ∷ []) ≡ blocks)
unfolding is_private_ipv4 is_private_v4 to4 text_eq
is_private_ipv4-blocks a b c d ha hb hc hd = (ground arith, ground arith)
