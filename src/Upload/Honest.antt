-- ===== src/Upload/Honest.antt =====
-- What `do_upload` of client/start.c serves against the content of the file.
use tele_sync.Prelude.{
  ℕ, ◌*◌, ◌≤◌, ◌≡◌, sym, ap, ◌∙◌, List, [], ◌++◌, Option, some, true, false, arith, ◌==◌, length,
  take, drop, prefix_whole, take-drop, take_nil, take-append, Bool-cases, inl, inr,
}
use tele_sync.Download.Transfer.{bytes, my_read, my_read_lem}
use tele_sync.Download.Sending.{count, my_write, my_write_lem}
use tele_sync.Upload.{PieceRequest, serve_piece, after_request, fetch_piece}

-- The bytes that a request asks for.
unfoldable pub piece_of : List ℕ → ℕ → PieceRequest → List ℕ
piece_of content piece_len req = take req.len (drop (req.piece_id * piece_len) content)

-- `read` takes the next bytes of a stream, and no more than were asked for.
abbrev pub Delivers {ℓ} : {S : Type ℓ} → (S → ℕ → S × Option (List ℕ)) → (S → List ℕ) → Type ℓ
Delivers {S} read pending =
    (s : S) (n : ℕ)
    → (length (bytes (read s n).1) ≤ n) × (pending s ≡ bytes (read s n).1 ++ pending (read s n).0)

-- `send` passes on the first bytes of what it is given.
abbrev pub Takes {ℓ} : {S : Type ℓ} → (S → List ℕ → S × Option ℕ) → (S → List ℕ) → Type ℓ
Takes {S} send sent =
    (s : S) (d : List ℕ)
    → (count (send s d).1 ≤ length d) × (sent (send s d).0 ≡ sent s ++ take (count (send s d).1) d)

-- A full read is the next bytes of the stream.
full_read {ℓ} :
    {S : Type ℓ} (read : S → ℕ → S × Option (List ℕ)) (pending : S → List ℕ)
    → Delivers read pending
    → (s : S) (len : ℕ) → length (my_read read s len).1 ≡ len
    → (my_read read s len).1 ≡ take len (pending s)
full_read read pending delivers s len full =
    let r = my_read_lem read pending delivers s len 0 in
    sym (take-append (my_read read s len).1 (pending (my_read read s len).0) len full)
    ∙ ap (λ p. take len p) (sym r.1)

module _ {ℓ} {File Conn In : Type ℓ} (lseek : File → ℕ → File)
    (read : File → ℕ → File × Option (List ℕ)) (send : Conn → List ℕ → Conn × Option ℕ)
    (arrive : Conn → In) (recv : In → ℕ → In × Option (List ℕ)) (rest : File → List ℕ)
    (sent : Conn → List ℕ) (pending : In → List ℕ) (reads : Delivers read rest)
    (sends : Takes send sent) (receives : Delivers recv pending)
    (arrives : (conn : Conn) → pending (arrive conn) ≡ sent conn) where
  module _ (content : List ℕ) (piece_len : ℕ) (file : File) (conn : Conn) (req : PieceRequest)
      (seeks : (off : ℕ) → rest (lseek file off) ≡ drop off content) (empty : sent conn ≡ []) where
    -- What the owner reads for the request.
    abbrev piece_buf : List ℕ
    piece_buf = (my_read read (lseek file (req.piece_id * piece_len)) req.len).1

    abbrev conn_after : Conn
    conn_after = after_request conn (serve_piece lseek read send piece_len file conn req)

    piece_buf_full : length piece_buf ≡ req.len → piece_buf ≡ piece_of content piece_len req
    unfolding piece_of
    piece_buf_full full =
        full_read read rest reads (lseek file (req.piece_id * piece_len)) req.len full
        ∙ ap (λ p. take req.len p) (seeks (req.piece_id * piece_len))

    served :
        (length piece_buf == req.len) ≡ true
        → pending (arrive conn_after) ≡ take (my_write send conn piece_buf).1 piece_buf
    unfolding serve_piece
    served full =
        arrives conn_after
        ∙ rw (full) (
            (my_write_lem send sent sends conn piece_buf 0).1
            ∙ ap (λ p. p ++ take (my_write send conn piece_buf).1 piece_buf) empty)

    refused : (length piece_buf == req.len) ≡ false → pending (arrive conn_after) ≡ []
    unfolding serve_piece
    refused short = arrives conn_after ∙ rw (short) empty

    received :
        (d : List ℕ)
        → fetch_piece lseek read send arrive recv piece_len file conn req ≡ some d
        → (length d ≡ req.len) × (d ≡ take req.len (pending (arrive conn_after)))
    unfolding fetch_piece
    received d e =
        elim (Bool-cases (length (my_read recv (arrive conn_after) req.len).1 == req.len)) [
          | inl full ↦
              let fit : length (my_read recv (arrive conn_after) req.len).1 ≡ req.len =
                ground arith in
              let same : (my_read recv (arrive conn_after) req.len).1 ≡ d = ground arith in
              (
                ap length (sym same) ∙ fit,
                sym same ∙ full_read recv pending receives (arrive conn_after) req.len fit,
              )
          | inr short ↦ absurd (ground arith)
        ]

    -- If a worker gets a piece from an owner, it is the piece of the owner's file that it asked for.
    pub fetch_piece-Honest :
        (d : List ℕ)
        → fetch_piece lseek read send arrive recv piece_len file conn req ≡ some d
        → d ≡ piece_of content piece_len req
    unfolding piece_of
    fetch_piece-Honest d e =
        let (fit, got) = received d e in
        elim (Bool-cases (length piece_buf == req.len)) [
          | inl full ↦
              let size : length piece_buf ≡ req.len = ground arith in
              let whole : d ++ drop req.len (pending (arrive conn_after))
                  ≡ take (my_write send conn piece_buf).1 piece_buf =
                ap (λ p. p ++ drop req.len (pending (arrive conn_after))) got
                ∙ take-drop req.len (pending (arrive conn_after))
                ∙ served full in
              prefix_whole d _ piece_buf _ whole (fit ∙ sym size) ∙ piece_buf_full size
          | inr short ↦
              let nothing : d ≡ [] =
                got ∙ ap (λ p. take req.len p) (refused short) ∙ take_nil req.len in
              let zero_len : 0 ≡ req.len = ap length (sym nothing) ∙ fit in
              nothing ∙ ap (λ n. take n (drop (req.piece_id * piece_len) content)) zero_len
        ]
