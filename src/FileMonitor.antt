-- ===== src/FileMonitor.antt =====
-- client/file_monitor.c: how a peer reads its directories. What `opendir` and `readdir` give is a
-- listing, what `stat` gives a time.
pub mod Paths
pub mod Names
pub mod Resolve
pub mod Scan
pub mod Targets
pub mod Watch
pub mod Lookup
pub mod Coherence
pub mod SysNames
pub mod Block
pub mod MissingDirs
pub mod Closest
pub mod NamesBelow
pub mod BlockNames
pub mod Removal
pub mod Events
pub mod Agreement
use tele_sync.Prelude.{
  ℕ, zero, suc, ◌+◌, List, [], ◌∷◌, ◌++◌, Option, none, some, Bool, true, false, ◌||◌,
  if◌then◌else◌, same_name,
}
use tele_sync.TransTable.{FileType, regular, directory, PeerId}
use tele_sync.FileTable.{FileEntry, FileTable, Status, success, failure, file_entry_add}
use tele_sync.Client.Packets.{p2p_port}

-- The entries that `readdir` gives in turn: the name, the modification time unless `stat` fails, and for
-- a directory what is in it unless `opendir` fails.
pub data Listing : Type 0 where
  done : Listing
  file : List ℕ → Option ℕ → Listing → Listing
  dir : List ℕ → Option ℕ → Listing → Listing → Listing
  closed_dir : List ℕ → Option ℕ → Listing → Listing

abbrev pub dot : List ℕ
dot = b'.' ∷ []

abbrev pub dot_dot : List ℕ
dot_dot = b'.' ∷ b'.' ∷ []

unfoldable pub is_dot : List ℕ → Bool
is_dot d_name = same_name d_name dot || same_name d_name dot_dot

-- `sprintf(name, "%s/%s", dir, d_name)`.
unfoldable pub path : List ℕ → List ℕ → List ℕ
path parent d_name = parent ++ b'/' ∷ d_name

-- `get_file_timestamp` leaves the 0 of `file_entry_alloc` when `stat` fails.
abbrev pub time_of : Option ℕ → ℕ
time_of none = 0
time_of (some time) = time

-- The entry of a file or a directory that is found.
unfoldable pub scanned : ℕ → FileType → List ℕ → Option ℕ → FileEntry
scanned my_ip type name time = record {
  name = name;
  timestamp = time_of time;
  type = type;
  owners = record { ip = my_ip; port = p2p_port } ∷ [];
}

-- An entry of the directory goes to the table, unless it is "." or "..".
unfoldable pub add_scanned : ℕ → FileTable → List ℕ → FileType → List ℕ → Option ℕ → FileTable
add_scanned my_ip ft logic_name type d_name time =
    if is_dot d_name
    then ft
    else file_entry_add ft (scanned my_ip type (path logic_name d_name) time)

-- `get_file_table_r` on a directory that could be opened: the table, and whether `ret` is 1 at the end,
-- which says that a directory below could not be opened.
unfoldable pub get_file_table_r : ℕ → FileTable → List ℕ → Listing → FileTable × Bool
get_file_table_r my_ip ft logic_name done = (ft, false)
get_file_table_r my_ip ft logic_name (file d_name time rest) =
    get_file_table_r my_ip (add_scanned my_ip ft logic_name regular d_name time) logic_name rest
get_file_table_r my_ip ft logic_name (dir d_name time sub rest) =
    let ft₁ = add_scanned my_ip ft logic_name directory d_name time in
    let (ft₂, failed) = get_file_table_r my_ip ft₁ (path logic_name d_name) sub in
    let (ft₃, others) =
      get_file_table_r my_ip (if is_dot d_name then ft₁ else ft₂) logic_name rest in
    (ft₃, if is_dot d_name then others else failed || others)
get_file_table_r my_ip ft logic_name (closed_dir d_name time rest) =
    let ft₁ = add_scanned my_ip ft logic_name directory d_name time in
    let (ft₂, others) = get_file_table_r my_ip ft₁ logic_name rest in
    (ft₂, if is_dot d_name then others else true)

-- `get_file_table` on what the target directories give, `none` for one that could not be opened. The
-- logic name of a target is its number from 1 on in decimal, which `sprintf` makes.
unfoldable pub get_file_table :
    (ℕ → List ℕ) → ℕ → FileTable → ℕ → List (Option Listing) → FileTable × Status
get_file_table decimal my_ip ft i [] = (ft, success)
get_file_table decimal my_ip ft i (none ∷ targets) = (ft, failure)
get_file_table decimal my_ip ft i (some listing ∷ targets) =
    get_file_table decimal my_ip (get_file_table_r my_ip ft (decimal (i + 1)) listing).0 (i + 1)
      targets
