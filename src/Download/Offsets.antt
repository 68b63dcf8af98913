-- ===== src/Download/Offsets.antt =====
-- The bytes of one piece of client/download.c, by their offset in the file.
use native.Mathlib.Nat.{div-add-mod, mod-lt}
use tele_sync.Prelude.{
  ℕ, zero, suc, ◌+◌, ◌-◌, ◌*◌, ◌/◌, ◌%◌, ◌≤◌, ◌<◌, ◌≡◌, ◌≢◌, sym, ap, ◌∙◌, List, arith, ◌==◌, ltb,
  Bool-cases, inl, inr, length, drop, get_or, length-take, length-drop, get_or-take, get_or-drop,
}
use tele_sync.Download.{DownloadObj, download_obj, request_len}
use tele_sync.Download.Pieces.{pieces_lem}
use tele_sync.Download.Copy.{piece_request}
use tele_sync.Upload.Honest.{piece_of}

mul_mono : (a i k : ℕ) → i ≤ k → i * a ≤ k * a
mul_mono a zero k h = grind arith
mul_mono a (suc i) zero h = absurd (omega arith)
mul_mono a (suc i) (suc k) h = grind (arith, mul_mono a i k)

-- The offset of a piece is that of its first byte.
pub div_bounds : (j a : ℕ) → 0 < a → (j / a * a ≤ j) × (j < j / a * a + a)
div_bounds j a h =
    let d = div-add-mod j a in
    let m : j % a < a = mod-lt j h in
    let c : a * (j / a) ≡ j / a * a = grind arith in (omega arith, omega arith)

suc_mul : (i a : ℕ) → suc i * a ≡ i * a + a
suc_mul i a = grind arith

pub div_between : (i j a : ℕ) → 0 < a → i * a ≤ j → j < i * a + a → j / a ≡ i
div_between i j a h low high =
    let b = div_bounds j a h in
    elim (Bool-cases (j / a == i)) [
      | inl e ↦ ground arith
      | inr e ↦
          let differ : j / a ≢ i = ground arith in
          absurd (
            ground (
              arith,
              mul_mono a (suc (j / a)) i,
              suc_mul (j / a) a,
              mul_mono a (suc i) (j / a),
              suc_mul i a,
            ))
    ]

module _ (content : List ℕ) (piece_len : ℕ) (pos : 0 < piece_len)
    (some_bytes : 0 < length content) where
  abbrev obj : DownloadObj
  obj = download_obj (length content) piece_len

  -- A piece lies inside the file, and is full unless it ends with it.
  pub piece_bounds :
      (i : ℕ)
      → i < obj.file_pieces
      → (0 < request_len obj piece_len i)
        × (i * piece_len + request_len obj piece_len i ≤ length content)
        × (request_len obj piece_len i ≤ piece_len)
        × ((j : ℕ)
            → j < length content
            → j / piece_len ≡ i
            → j < i * piece_len + request_len obj piece_len i)
  unfolding request_len download_obj
  piece_bounds i h =
      let (some_piece, low, high) = pieces_lem (length content) piece_len pos some_bytes in
      let p = (length content + piece_len - 1) / piece_len in
      let comm : piece_len * (p - 1) ≡ (p - 1) * piece_len = grind arith in
      elim (Bool-cases (i == p - 1)) [
        | inl e ↦
            let last : i ≡ p - 1 = ground arith in
            let off : i * piece_len ≡ piece_len * (p - 1) =
              ap (λ k. k * piece_len) last ∙ sym comm in
            rw e (omega arith, omega arith, omega arith, λ j l q. omega arith)
        | inr e ↦
            let early : suc i ≤ p - 1 = ground arith in
            let room = mul_mono piece_len (suc i) (p - 1) early in
            let next = suc_mul i piece_len in
            rw e (
              omega arith,
              omega arith,
              omega arith,
              λ j l q.
                  let same : j / piece_len * piece_len ≡ i * piece_len =
                    ap (λ k. k * piece_len) q in
                  omega (arith, (div_bounds j piece_len pos).1, same),
            )
      ]

  pub length-piece_of :
      (i : ℕ)
      → i < obj.file_pieces
      → length (piece_of content piece_len (piece_request obj piece_len i))
        ≡ request_len obj piece_len i
  unfolding piece_of piece_request
  length-piece_of i h =
      let b = piece_bounds i h in
      length-take (request_len obj piece_len i) (drop (i * piece_len) content)
      ∙ omega (arith, length-drop (i * piece_len) content, b.1)

  pub get_or-piece_of :
      (i j : ℕ)
      → i < obj.file_pieces
      → i * piece_len ≤ j
      → j < i * piece_len + request_len obj piece_len i
      → get_or (piece_of content piece_len (piece_request obj piece_len i)) (j - i * piece_len) 0
        ≡ get_or content j 0
  unfolding piece_of piece_request
  get_or-piece_of i j h low high =
      get_or-take (request_len obj piece_len i) (drop (i * piece_len) content) (j - i * piece_len) 0
        (omega arith)
      ∙ get_or-drop (i * piece_len) content (j - i * piece_len) 0
      ∙ ap (λ k. get_or content k 0)
          (let e : i * piece_len + (j - i * piece_len) ≡ j = omega arith in e)

  -- Each byte lies in a piece.
  pub piece_exists : (j : ℕ) → j < length content → j / piece_len < obj.file_pieces
  unfolding download_obj
  piece_exists j h =
      let p = (length content + piece_len - 1) / piece_len in
      let (some_piece, low, high) = pieces_lem (length content) piece_len pos some_bytes in
      let comm : piece_len * (p - 1) ≡ (p - 1) * piece_len = grind arith in
      let b = div_bounds j piece_len pos in
      elim (Bool-cases (ltb (j / piece_len) p)) [
        | inl e ↦ ground arith
        | inr e ↦
            let far : suc (p - 1) ≤ j / piece_len = ground arith in
            absurd (
              omega (
                arith,
                mul_mono piece_len (suc (p - 1)) (j / piece_len) far,
                suc_mul (p - 1) piece_len,
              ))
      ]
