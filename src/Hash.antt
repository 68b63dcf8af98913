-- ===== src/Hash.antt =====
-- include/hash.h: the string hash, the bucket index and the size of a bucket array. An `unsigned
-- long` has 64 bits, a `char` is signed, and an unsigned value is a natural number below 2 ^ w.
pub mod Bounds
use Prim.Native.Nat.{bit_and, bit_xor}
use tele_sync.Prelude.{
  ℕ, zero, suc, ◌+◌, ◌-◌, ◌*◌, ◌/◌, ◌%◌, ◌^◌, List, [], ◌∷◌, length, ltb, ◌==◌, if◌then◌else◌,
}

abbrev pub ulong_mod : ℕ
ulong_mod = 2 ^ 64

abbrev pub u32_mod : ℕ
u32_mod = 2 ^ 32

-- A byte read as a signed `char` and converted to `unsigned long`.
pub extend_char : ℕ → ℕ
extend_char c = if ltb c 128 then c else ulong_mod - 256 + c

-- One round of the loop of `ELFhash`.
pub elf_step : ℕ → ℕ → ℕ
unfolding extend_char
elf_step h c =
    let shifted = (h * 16 + extend_char c) % ulong_mod in
    let g = bit_and shifted 0xf000_0000 in
    let mixed = if g == 0 then shifted else bit_xor shifted (g / 2 ^ 24) in
    bit_and mixed (ulong_mod - 1 - g)

pub elf_from : ℕ → List ℕ → ℕ
unfolding elf_step
elf_from h [] = h
elf_from h (c ∷ cs) = elf_from (elf_step h c) cs

unfoldable pub elf_hash : List ℕ → ℕ
unfolding elf_from
elf_hash key = elf_from 0 key

abbrev pub golden_ratio_prime_32 : ℕ
golden_ratio_prime_32 = 0x9e37_0001

-- The product is computed in `unsigned long` and stored in a `uint32_t`.
unfoldable pub hash_32 : ℕ → ℕ → ℕ
hash_32 val bits = val * golden_ratio_prime_32 % ulong_mod % u32_mod / 2 ^ (32 - bits)

-- `while ((1UL << l) != v) l++`. 64 stands for the shift past the word, which C leaves undefined.
pub ilog2_from : ℕ → ℕ → ℕ → ℕ
ilog2_from zero l v = l
ilog2_from (suc fuel) l v = let rest = ilog2_from fuel (l + 1) v in if 2 ^ l == v then l else rest

unfoldable pub ilog2 : ℕ → ℕ
unfolding ilog2_from
ilog2 v = ilog2_from 64 0 v

-- The macro `hash_min(key, HASH_BITS(table))`: the key becomes a `uint32_t`, and the bits come from
-- the number of buckets.
unfoldable pub hash_min : ℕ → ℕ → ℕ
unfolding hash_32
hash_min key size = hash_32 (key % u32_mod) (ilog2 size)

-- The bucket of `hash_add(table, node, ELFhash(name))`.
unfoldable pub add_bucket : List ℕ → ℕ → ℕ
add_bucket name size = hash_min (elf_hash name) size

-- `int key = ELFhash(name)`: the pattern of the `int` that `__file_table_search` keeps.
unfoldable pub int_key : List ℕ → ℕ
int_key name = elf_hash name % u32_mod

-- The bucket of `hash_for_each_possible(table, fe, hlist, key)`: `key` is sign-extended on the way.
unfoldable pub search_bucket : List ℕ → ℕ → ℕ
unfolding int_key
search_bucket name size =
    let key = int_key name in
    hash_min (if ltb key (2 ^ 31) then key else ulong_mod - u32_mod + key) size
