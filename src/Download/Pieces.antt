-- ===== src/Download/Pieces.antt =====
-- The lengths of the pieces of client/download.c.
use native.Mathlib.Nat.{div-add-mod, mod-lt}
use tele_sync.Prelude.{
  ℕ, zero, suc, ◌+◌, ◌-◌, ◌*◌, ◌/◌, ◌%◌, ◌≤◌, ◌<◌, ◌≡◌, false, arith, ◌==◌, ==_refl, refl,
}
use tele_sync.Download.{DownloadObj, download_obj, request_len}

-- The sum of the lengths of the first pieces.
unfoldable pub lens : DownloadObj → ℕ → ℕ → ℕ
lens obj piece_len zero = 0
lens obj piece_len (suc k) = lens obj piece_len k + request_len obj piece_len k

mul_pred : (a b : ℕ) → 0 < b → a * (b - 1) + a ≡ a * b
mul_pred a zero h = absurd (omega arith)
mul_pred a (suc b) h = grind arith

mul_suc : (a b : ℕ) → a * suc b ≡ a * b + a
mul_suc a b = grind arith

positive : (a p n m : ℕ) → a * p + m ≡ n → m < a → a ≤ n → 0 < p
positive a zero n m e small le = absurd (grind arith)
positive a (suc p) n m e small le = omega arith

-- The number of pieces, as a quotient: all but the last are full, and the last is not empty.
pub pieces_lem :
    (file_len piece_len : ℕ)
    → 0 < piece_len
    → 0 < file_len
    → (0 < (file_len + piece_len - 1) / piece_len)
      × (piece_len * ((file_len + piece_len - 1) / piece_len - 1) < file_len)
      × (file_len ≤ piece_len * ((file_len + piece_len - 1) / piece_len - 1) + piece_len)
pieces_lem file_len piece_len pos some_bytes =
    let n = file_len + piece_len - 1 in
    let p = n / piece_len in
    let d = div-add-mod n piece_len in
    let m : n % piece_len < piece_len = mod-lt n pos in
    let some_piece : 0 < p = positive piece_len p n (n % piece_len) d m (omega arith) in
    let last = mul_pred piece_len p some_piece in (some_piece, omega arith, omega arith)

lens_full :
    (obj : DownloadObj) (piece_len k : ℕ)
    → k < obj.file_pieces
    → lens obj piece_len k ≡ piece_len * k
unfolding lens request_len
lens_full obj piece_len zero h = grind arith
lens_full obj piece_len (suc k) h =
    let before = lens_full obj piece_len k (omega arith) in
    let not_last : (k == obj.file_pieces - 1) ≡ false = ground arith in
    rw not_last (omega (arith, before, mul_suc piece_len k))

lens_last :
    (obj : DownloadObj) (piece_len p : ℕ)
    → 0 < p
    → lens obj piece_len p ≡ lens obj piece_len (p - 1) + request_len obj piece_len (p - 1)
unfolding lens
lens_last obj piece_len zero h = absurd (omega arith)
lens_last obj piece_len (suc p) h = let e : suc p - 1 ≡ p = omega arith in rw e refl

request_len_last :
    (obj : DownloadObj) (piece_len : ℕ)
    → request_len obj piece_len (obj.file_pieces - 1)
      ≡ obj.file_len - piece_len * (obj.file_pieces - 1)
unfolding request_len
request_len_last obj piece_len = rw (==_refl (obj.file_pieces - 1)) refl

-- The pieces of a file that is not empty make up the file, and none of them is empty or longer than a
-- full piece.
pub request_len-covers :
    (file_len piece_len : ℕ)
    → 0 < piece_len
    → 0 < file_len
    → (lens
          (download_obj file_len piece_len)
          piece_len
          (download_obj file_len piece_len).file_pieces
        ≡ file_len)
      × ((k : ℕ)
          → k < (download_obj file_len piece_len).file_pieces
          → (0 < request_len (download_obj file_len piece_len) piece_len k)
            × (request_len (download_obj file_len piece_len) piece_len k ≤ piece_len))
unfolding download_obj lens request_len
request_len-covers file_len piece_len pos some_bytes =
    let p = (file_len + piece_len - 1) / piece_len in
    let (some_piece, low, high) = pieces_lem file_len piece_len pos some_bytes in
    let before = lens_full (download_obj file_len piece_len) piece_len (p - 1) (omega arith) in
    let last = lens_last (download_obj file_len piece_len) piece_len p some_piece in
    let rest = request_len_last (download_obj file_len piece_len) piece_len in
    (omega (arith, last, rest, before, low, high), λ k h. (ground arith, ground arith))
