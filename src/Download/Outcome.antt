-- ===== src/Download/Outcome.antt =====
-- What `do_download` of client/download.c makes of the statuses of its workers.
use tele_sync.Prelude.{◌≡◌, refl, List, [], ◌∷◌, Bool, true, false, if◌then◌else◌, ◌||◌}
use tele_sync.Download.{ret_zero, ret_one, join_status, join_all, download_result}

unfoldable pub any_succeeded : List Bool → Bool
any_succeeded [] = false
any_succeeded (ok ∷ oks) = ok || any_succeeded oks

join_all_zero : (oks : List Bool) → join_all oks ret_zero ≡ ret_zero
unfolding join_all join_status
join_all_zero [] = refl
join_all_zero (true ∷ oks) = join_all_zero oks
join_all_zero (false ∷ oks) = join_all_zero oks

join_all_one :
    (oks : List Bool) → join_all oks ret_one ≡ (if any_succeeded oks then ret_zero else ret_one)
unfolding join_all join_status any_succeeded
join_all_one [] = refl
join_all_one (true ∷ oks) = join_all_zero oks
join_all_one (false ∷ oks) = join_all_one oks

-- With at least one worker, the result is 0 as soon as one worker ended with 0, whatever the others
-- did, and 1 otherwise. It is never -1.
pub download_result-any :
    (ok : Bool) (oks : List Bool)
    → download_result (ok ∷ oks) ≡ (if any_succeeded (ok ∷ oks) then ret_zero else ret_one)
unfolding download_result join_all join_status any_succeeded
download_result-any true oks = join_all_zero oks
download_result-any false oks = join_all_one oks
