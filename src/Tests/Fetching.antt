-- ===== src/Tests/Fetching.antt =====
-- client/download.c at small inputs: a file of 100 bytes in pieces of 64.
use tele_sync.Prelude.{ℕ, zero, suc, ◌≤◌, ◌<◌, ◌≡◌, refl, [], ◌∷◌, true, false, arith, replicate}
use tele_sync.Download.{
  DownloadObj, download_obj, request_len, Exchange, transferred, short_read, piece_available,
  download_result, ret_zero,
}
use tele_sync.Download.Pieces.{lens, request_len-covers}
use tele_sync.Download.Outcome.{any_succeeded, download_result-any}

abbrev obj : DownloadObj
obj = record {
  file_len = 100;
  file_pieces = 2;
  piece_flags = piece_available ∷ piece_available ∷ [];
}

obj_lem : download_obj 100 64 ≡ obj
unfolding download_obj replicate
obj_lem = refl

request_len-covers_example :
    (lens (download_obj 100 64) 64 (download_obj 100 64).file_pieces ≡ 100)
    × ((k : ℕ)
        → k < (download_obj 100 64).file_pieces
        → (0 < request_len (download_obj 100 64) 64 k)
          × (request_len (download_obj 100 64) 64 k ≤ 64))
request_len-covers_example = request_len-covers 100 64 (omega arith) (omega arith)

-- The second exchange fails.
second_fails : ℕ → Exchange
second_fails zero = transferred
second_fails (suc i) = short_read

download_result-any_example : download_result (false ∷ true ∷ false ∷ []) ≡ ret_zero
unfolding any_succeeded
download_result-any_example = download_result-any false (true ∷ false ∷ [])
