-- ===== src/Download/Disk.antt =====
-- The disk that client/download.c writes to, as the calls `lseek` and `write` document it, and a disk
-- that does so.
use tele_sync.Prelude.{
  ℕ, zero, suc, ◌+◌, ◌-◌, ◌<◌, ◌≡◌, List, [], ◌∷◌, arith, ltb, leb, ◌&&◌, if◌then◌else◌, length,
  get_or,
}
use Prim.Native.Nat.{max}

-- A file is its bytes. `write_at` seeks and writes: the bytes from the offset on are overwritten, and the
-- file grows as far as that needs, with zeros in a gap.
pub record Disk : Type 0 where
  pub write_at : List ℕ → ℕ → List ℕ → List ℕ
  pub write_length :
      (file : List ℕ) (off : ℕ) (d : List ℕ)
      → 0 < length d
      → length (write_at file off d) ≡ max (length file) (off + length d)
  pub write_byte :
      (file : List ℕ) (off : ℕ) (d : List ℕ) (j : ℕ)
      → get_or (write_at file off d) j 0
        ≡ (if leb off j && ltb j (off + length d) then get_or d (j - off) 0 else get_or file j 0)

unfoldable pub overlay : List ℕ → ℕ → List ℕ → List ℕ
overlay file off [] = file
overlay [] zero (b ∷ d) = b ∷ overlay [] zero d
overlay (x ∷ file) zero (b ∷ d) = b ∷ overlay file zero d
overlay [] (suc off) (b ∷ d) = 0 ∷ overlay [] off (b ∷ d)
overlay (x ∷ file) (suc off) (b ∷ d) = x ∷ overlay file off (b ∷ d)

pub length-overlay :
    (file : List ℕ) (off : ℕ) (d : List ℕ)
    → 0 < length d
    → length (overlay file off d) ≡ max (length file) (off + length d)
unfolding overlay
length-overlay file off [] h = absurd (omega arith)
length-overlay [] zero (b ∷ []) h = omega arith
length-overlay (x ∷ file) zero (b ∷ []) h = omega arith
length-overlay [] zero (b ∷ c ∷ d) h = omega (arith, length-overlay [] zero (c ∷ d))
length-overlay (x ∷ file) zero (b ∷ c ∷ d) h = omega (arith, length-overlay file zero (c ∷ d))
length-overlay [] (suc off) (b ∷ d) h = omega (arith, length-overlay [] off (b ∷ d))
length-overlay (x ∷ file) (suc off) (b ∷ d) h = omega (arith, length-overlay file off (b ∷ d))

pub get_or-overlay :
    (file : List ℕ) (off : ℕ) (d : List ℕ) (j : ℕ)
    → get_or (overlay file off d) j 0
      ≡ (if leb off j && ltb j (off + length d) then get_or d (j - off) 0 else get_or file j 0)
unfolding overlay
get_or-overlay file off [] j = ground arith
get_or-overlay [] zero (b ∷ d) zero = ground arith
get_or-overlay [] zero (b ∷ d) (suc j) = ground (arith, get_or-overlay [] zero d j)
get_or-overlay (x ∷ file) zero (b ∷ d) zero = ground arith
get_or-overlay (x ∷ file) zero (b ∷ d) (suc j) = ground (arith, get_or-overlay file zero d j)
get_or-overlay [] (suc off) (b ∷ d) zero = ground arith
get_or-overlay [] (suc off) (b ∷ d) (suc j) = ground (arith, get_or-overlay [] off (b ∷ d) j)
get_or-overlay (x ∷ file) (suc off) (b ∷ d) zero = ground arith
get_or-overlay (x ∷ file) (suc off) (b ∷ d) (suc j) =
    ground (arith, get_or-overlay file off (b ∷ d) j)

unfoldable pub plain_disk : Disk
plain_disk = record {
  write_at = overlay;
  write_length = length-overlay;
  write_byte = get_or-overlay;
}
