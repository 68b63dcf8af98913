-- ===== src/Server/Sync/Versions.antt =====
-- The versions of a file that `sync_task` of server/start.c compares. A version is 0 for no entry and
-- else the timestamp plus 1.
use Prim.Native.Nat.{max}
use tele_sync.Prelude.{
  ℕ, suc, ◌≤◌, ◌≡◌, refl, List, [], ◌∷◌, ◌++◌, Option, none, some, arith, same_name, same_name→eq,
  if◌then◌else◌, concat, Option-cases, inl, inr, ap, ◌∙◌, Bool-cases, ltb,
}
use tele_sync.TransTable.{TransFileEntry, TransFileTable}
use tele_sync.FileTable.{
  FileEntry, FileTable, find_in_chain, file_table_search, file_table_find, trans_entry_fill_from,
}
use tele_sync.FileTable.Chain.{name_count}
use tele_sync.FileTable.Sweep.{fill_entries, trans_table_fill_from}
use tele_sync.FileTable.Refines.{
  Writes, merged, refreshed, file_table_add-Writes, file_table_update-Writes,
}
use tele_sync.FileTable.Valid.{IsValid}
use tele_sync.FileTable.Walk.{concat-search, present}
use tele_sync.Server.{trans_file_search}
use tele_sync.Server.Sync.{filled_as, sync_entry, sync_entries, sync_self_entry, sync_self}

unfoldable pub version : Option FileEntry → ℕ
version none = 0
version (some fe) = suc fe.timestamp

-- The greatest version under a name that a table on the wire carries.
unfoldable pub latest : List ℕ → TransFileTable → ℕ
latest q [] = 0
latest q (te ∷ tft) = max (if same_name te.name q then suc te.timestamp else 0) (latest q tft)

pub latest-append :
    (q : List ℕ) (a b : TransFileTable) → latest q (a ++ b) ≡ max (latest q a) (latest q b)
unfolding latest
latest-append q [] b = omega arith
latest-append q (te ∷ a) b = omega (arith, latest-append q a b)

trans_file_search-le :
    (q : List ℕ) (tft : TransFileTable) (te : TransFileEntry)
    → trans_file_search tft q ≡ some te
    → suc te.timestamp ≤ latest q tft
unfolding trans_file_search latest
trans_file_search-le q [] te h = cc
trans_file_search-le q (x ∷ tft) te h = ground (arith, trans_file_search-le q tft te)

latest_walk : List ℕ → List FileEntry → ℕ
latest_walk q [] = 0
latest_walk q (fe ∷ fes) =
    max (if same_name fe.name q then suc fe.timestamp else 0) (latest_walk q fes)

latest_walk_absent :
    (q : List ℕ) (fes : List FileEntry) → name_count q fes ≡ 0 → latest_walk q fes ≡ 0
unfolding latest_walk name_count
latest_walk_absent q [] h = refl
latest_walk_absent q (fe ∷ fes) h = ground (arith, latest_walk_absent q fes)

latest_walk-find :
    (q : List ℕ) (fes : List FileEntry)
    → name_count q fes ≤ 1
    → latest_walk q fes ≡ version (find_in_chain q fes)
unfolding latest_walk name_count find_in_chain version
latest_walk-find q [] h = refl
latest_walk-find q (fe ∷ fes) h = ground (arith, latest_walk-find q fes, latest_walk_absent q fes)

present-le : (o : Option FileEntry) → present o ≤ 1
present-le none = omega arith
present-le (some fe) = omega arith

latest_walk-search :
    {t : FileTable}
    → IsValid t
    → (q : List ℕ) → latest_walk q (concat t.buckets) ≡ version (file_table_search t q)
latest_walk-search {t} v q =
    let c = concat-search v q in
    latest_walk-find q (concat t.buckets) (omega (arith, c.1, present-le (file_table_search t q)))
    ∙ ap version c.0

latest-fill_entries :
    (q : List ℕ) (fes : List FileEntry) → latest q (fill_entries fes) ≡ latest_walk q fes
unfolding latest latest_walk fill_entries trans_entry_fill_from
latest-fill_entries q [] = refl
latest-fill_entries q (fe ∷ fes) = ground (arith, latest-fill_entries q fes)

-- The copy of a valid table for the wire carries the version of every entry.
pub latest-trans_table_fill_from :
    {t : FileTable}
    → IsValid t
    → (q : List ℕ) → latest q (trans_table_fill_from t) ≡ version (file_table_search t q)
unfolding trans_table_fill_from
latest-trans_table_fill_from {t} v q =
    latest-fill_entries q (concat t.buckets) ∙ latest_walk-search v q

sync_entry-latest :
    (q : List ℕ) (tft : TransFileTable) (fe : FileEntry)
    → max (latest q tft) (latest q (sync_entry tft fe))
      ≡ max (latest q tft) (if same_name fe.name q then suc fe.timestamp else 0)
unfolding sync_entry filled_as trans_entry_fill_from latest
sync_entry-latest q tft fe = elim (Option-cases (trans_file_search tft fe.name)) [
  | inl e ↦ rw (e, sync_entry) (ground arith)
  | inr (te, e) ↦
      rw (e, sync_entry)
        (ground (arith, trans_file_search-le fe.name tft te e, same_name→eq fe.name q))
]

-- With the answer of the tracker, a peer knows of each entry of the tracker at least its version.
sync_entries-latest :
    (q : List ℕ) (tft : TransFileTable) (fes : List FileEntry)
    → max (latest q tft) (latest q (sync_entries tft fes)) ≡ max (latest q tft) (latest_walk q fes)
unfolding sync_entries latest_walk
sync_entries-latest q tft [] = unfold latest in refl
sync_entries-latest q tft (fe ∷ fes) = omega (
  arith,
  latest-append q (sync_entry tft fe) (sync_entries tft fes),
  sync_entry-latest q tft fe,
  sync_entries-latest q tft fes,
)

-- The answer of the tracker brings a peer that sent `tft` up to the version of the tracker.
pub sync_entries-version :
    {t : FileTable}
    → IsValid t
    → (tft : TransFileTable) (q : List ℕ)
    → max (latest q tft) (latest q (sync_entries tft (concat t.buckets)))
      ≡ max (latest q tft) (version (file_table_search t q))
sync_entries-version {t} v tft q =
    rw (← latest_walk-search v q) (sync_entries-latest q tft (concat t.buckets))

pub version-merged :
    (o : Option FileEntry) (te : TransFileEntry)
    → version (some (merged o te)) ≡ max (version o) (suc te.timestamp)
unfolding version merged
version-merged none te = omega arith
version-merged (some fe) te = ground arith

-- One round stores the merged entry, whatever the branch.
pub sync_self_entry-Writes :
    {t : FileTable}
    → IsValid t
    → (te : TransFileEntry)
    → Writes t te.name (some (merged (file_table_search t te.name) te)) (sync_self_entry t te).0
unfolding sync_self_entry file_table_find refreshed
sync_self_entry-Writes {t} v te = elim (Option-cases (file_table_search t te.name)) [
  | inl e ↦ rw (e, sync_self_entry) (rw e at (file_table_add-Writes v te).1)
  | inr (fe, e) ↦
      let w = file_table_update-Writes v te in
      elim (Bool-cases (ltb fe.timestamp te.timestamp)) [
        | inl newer ↦ rw (e, sync_self_entry, newer) (rw (e, refreshed) at w.1)
        | inr older ↦ rw (e, sync_self_entry, older) (rw (e, refreshed) at w.1)
      ]
]

-- The loop keeps the table valid, and every file ends at the greater of its two versions.
pub sync_self-version :
    (tft : TransFileTable) {t : FileTable} (broad : TransFileTable)
    → IsValid t
    → IsValid (sync_self t broad tft).0
      × ((q : List ℕ)
          → version (file_table_search (sync_self t broad tft).0 q)
            ≡ max (version (file_table_search t q)) (latest q tft))
unfolding sync_self latest
sync_self-version [] broad v = (v, λ q. omega arith)
sync_self-version (te ∷ tft) {t} broad v =
    let w = sync_self_entry-Writes v te in
    let (valid, reads) = sync_self-version tft (broad ++ (sync_self_entry t te).1) w.valid in
    (
      valid,
      λ q. ground (
        arith,
        reads q,
        w.reads q,
        version-merged (file_table_search t te.name) te,
        same_name→eq te.name q,
      ),
    )
