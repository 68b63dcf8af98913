-- ===== src/Wire/Bytes.antt =====
-- Numbers and strings in fixed places of a byte string.
use native.Mathlib.Nat.{pow-suc}
use tele_sync.Prelude.{
  ℕ, zero, suc, ◌+◌, ◌-◌, ◌*◌, ◌/◌, ◌%◌, ◌^◌, ◌≤◌, ◌<◌, ◌≡◌, refl, ap, List, [], ◌∷◌, ◌++◌, Bool,
  true, arith, ◌==◌, ◌&&◌, not, if◌then◌else◌, length, length-append, length-replicate, replicate,
}

-- The low `w` bytes of a number, the lowest first.
unfoldable pub to_bytes : ℕ → ℕ → List ℕ
to_bytes zero v = []
to_bytes (suc w) v = v % 256 ∷ to_bytes w (v / 256)

unfoldable pub from_bytes : List ℕ → ℕ
from_bytes [] = 0
from_bytes (b ∷ bs) = b + 256 * from_bytes bs

pub length-to_bytes : (w v : ℕ) → length (to_bytes w v) ≡ w
unfolding to_bytes
length-to_bytes zero v = refl
length-to_bytes (suc w) v = ap suc (length-to_bytes w (v / 256))

pub from_bytes-to_bytes : (w v : ℕ) → v < 256 ^ w → from_bytes (to_bytes w v) ≡ v
unfolding to_bytes from_bytes
from_bytes-to_bytes zero v h = ground arith
from_bytes-to_bytes (suc w) v h =
    omega (arith, from_bytes-to_bytes w (v / 256) (omega (arith, pow-suc 256 w)))

-- A string, and zeros behind it up to the end of its buffer.
unfoldable pub padded : ℕ → List ℕ → List ℕ
padded size name = name ++ replicate (size - length name) 0

-- What stands before the first zero.
unfoldable pub c_string : List ℕ → List ℕ
c_string [] = []
c_string (c ∷ cs) = let rest = c_string cs in if c == 0 then [] else c ∷ rest

unfoldable pub no_nul : List ℕ → Bool
no_nul [] = true
no_nul (c ∷ cs) = not (c == 0) && no_nul cs

pub c_string-append : (name rest : List ℕ) → no_nul name ≡ true → c_string (name ++ 0 ∷ rest) ≡ name
unfolding c_string no_nul
c_string-append [] rest h = refl
c_string-append (c ∷ name) rest h = ground (arith, c_string-append name rest)

pub length-padded :
    (size : ℕ) (name : List ℕ) → length name ≤ size → length (padded size name) ≡ size
unfolding padded
length-padded size name h = omega (
  arith,
  length-append name (replicate (size - length name) 0),
  length-replicate {A = ℕ} (size - length name) 0,
)

pub c_string-padded :
    (size : ℕ) (name : List ℕ)
    → length name < size
    → no_nul name ≡ true
    → c_string (padded size name) ≡ name
unfolding padded replicate
c_string-padded size name h n =
    let gap : size - length name ≡ suc (size - length name - 1) = omega arith in
    rw gap (c_string-append name (replicate (size - length name - 1) 0) n)
