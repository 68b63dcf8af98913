-- ===== src/Hash/Bounds.antt =====
-- The bucket index of include/hash.h, for insertion and for search.
use native.Mathlib.Nat.{pow-suc, pow-le-pow_right, add-zero, div-lt_iff_lt-mul}
use tele_sync.Prelude.{
  ℕ, zero, suc, ◌+◌, ◌-◌, ◌*◌, ◌/◌, ◌%◌, ◌^◌, ◌≤◌, ◌<◌, ◌≡◌, List, arith, ltb, ◌==◌, if◌then◌else◌,
  Bool-cases, ==_iff, inl, inr, ap,
}
use tele_sync.Hash.{
  ulong_mod, u32_mod, hash_32, ilog2_from, ilog2, hash_min, elf_hash, int_key, add_bucket,
  search_bucket,
}

pow-add : (a b : ℕ) → 2 ^ (a + b) ≡ 2 ^ a * 2 ^ b
pow-add a zero = rw (add-zero) (omega arith)
pow-add a (suc b) =
    let e : 2 ^ (a + suc b) ≡ 2 ^ (suc (a + b)) = ap (λ (t : ℕ). 2 ^ t) (omega arith) in
    rw (e, pow-suc 2 (a + b), pow-suc 2 b, pow-add a b) (omega arith)

pow-lt : (l k : ℕ) → l < k → 2 ^ l < 2 ^ k
pow-lt l k h = omega (
  arith,
  pow-suc 2 l,
  pow-le-pow_right {n = 2} (omega arith) {i = suc l} {j = k} h,
  pow-le-pow_right {n = 2} (omega arith) {i = 0} {j = l} (omega arith),
)

ilog2_from-pow : (fuel l k : ℕ) → l ≤ k → k < l + fuel → ilog2_from fuel l (2 ^ k) ≡ k
unfolding ilog2_from
ilog2_from-pow zero l k h m = absurd (omega arith)
ilog2_from-pow (suc fuel) l k h m = elim (Bool-cases (l == k)) [
  | inl e ↦ let e' = (==_iff l k).0 e in ground (arith, ap (λ (t : ℕ). 2 ^ t) e')
  | inr e ↦
      let l' : l < k = ground arith in
      ground (arith, pow-lt l k l', ilog2_from-pow fuel (l + 1) k (omega arith) (omega arith))
]

-- `ilog2` ends and returns the exponent at each power of two of the word.
pub ilog2-pow : (k : ℕ) → k < 64 → ilog2 (2 ^ k) ≡ k
unfolding ilog2
ilog2-pow k h = ilog2_from-pow 64 0 k (omega arith) (omega arith)

shift-lt : (x bits : ℕ) → x < 2 ^ 32 → bits ≤ 32 → x / 2 ^ (32 - bits) < 2 ^ bits
shift-lt x bits h le =
    (div-lt_iff_lt-mul (
        omega
          (arith, pow-le-pow_right {n = 2} (omega arith) {i = 0} {j = 32 - bits} (omega arith)))).1
      (rw (← pow-add bits (32 - bits)) (let e : bits + (32 - bits) ≡ 32 = omega arith in rw e h))

hash_32-lt : (val bits : ℕ) → bits ≤ 32 → hash_32 val bits < 2 ^ bits
unfolding hash_32
hash_32-lt val bits h = shift-lt (val * 0x9e37_0001 % ulong_mod % u32_mod) bits (omega arith) h

sign_extend :
    (h : ℕ)
    → (if ltb (h % u32_mod) (2 ^ 31) then h % u32_mod else ulong_mod - u32_mod + h % u32_mod)
        % u32_mod
      ≡ h % u32_mod
sign_extend h = ground arith

-- In an array whose size is a power of two of at most 32 bits, the index is inside the array.
pub hash_min-lt : (key bits : ℕ) → bits ≤ 32 → hash_min key (2 ^ bits) < 2 ^ bits
unfolding hash_min
hash_min-lt key bits h = rw (ilog2-pow bits (omega arith)) (hash_32-lt (key % u32_mod) bits h)

-- Insertion and search look into the same bucket, though one passes an `int`.
pub search_bucket-eq-add_bucket :
    (name : List ℕ) (size : ℕ) → search_bucket name size ≡ add_bucket name size
unfolding search_bucket add_bucket hash_min int_key
search_bucket-eq-add_bucket name size =
    ap (λ (v : ℕ). hash_32 v (ilog2 size)) (sign_extend (elf_hash name))

-- In an array of 2 ^ bits buckets, insertion and search take the same bucket, which is in the array.
pub bucket_agrees :
    (name : List ℕ) (bits : ℕ)
    → bits ≤ 32
    → (search_bucket name (2 ^ bits) ≡ add_bucket name (2 ^ bits))
      × (search_bucket name (2 ^ bits) < 2 ^ bits)
unfolding search_bucket
bucket_agrees name bits h = (search_bucket-eq-add_bucket name (2 ^ bits), hash_min-lt _ bits h)
