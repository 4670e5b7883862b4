-- ===== src/Loader/Index.antt =====
-- The global index that the loader puts together, and what the hash of an imported exit makes of
-- it.
use agg_certificate_proxy.Prelude.{
  ℕ, ◌+◌, ◌*◌, ◌/◌, ◌%◌, ◌^◌, ◌<◌, ◌≡◌, refl, Bool, ◌∷◌, ◌++◌, some, replicate, arith,
}
use agg_certificate_proxy.BigEndian.{set_bytes}
use agg_certificate_proxy.Hashing.{reversed_global_index}
use agg_certificate_proxy.Loader.{global_index_bytes, flag_byte, little_endian}

-- The four bytes of a word, the highest first, make it up.
word_bytes :
    (n : ℕ)
    → n < 2 ^ 32
    → ((n / 2 ^ 24 % 256 * 256 + n / 2 ^ 16 % 256) * 256 + n / 2 ^ 8 % 256) * 256 + n % 256 ≡ n
word_bytes n h = omega arith

-- The bytes of the global index spell, as a big-endian number, the flag at bit 64, the index of the
-- rollup at bit 32 and the index of the leaf; the bytes that are hashed are the little-endian ones
-- of the leaf, of the rollup and of the flag, and 23 zeros. The indices are below 2 ^ 32.
pub global_index_bytes_lem :
    (flag : Bool) (rollup_index leaf_index : ℕ)
    → rollup_index < 2 ^ 32
    → leaf_index < 2 ^ 32
    → (set_bytes (global_index_bytes flag rollup_index leaf_index)
        ≡ flag_byte flag * 2 ^ 64 + rollup_index * 2 ^ 32 + leaf_index)
      × (reversed_global_index (global_index_bytes flag rollup_index leaf_index)
          ≡ some (
              little_endian leaf_index
              ++ (little_endian rollup_index ++ flag_byte flag ∷ replicate 23 0)))
unfolding global_index_bytes set_bytes reversed_global_index
global_index_bytes_lem flag r l hr hl = (omega (arith, word_bytes r hr, word_bytes l hl), refl)
