-- ===== src/FileMonitor/Lookup.antt =====
-- The search along the list of watched directories in client/file_monitor.c, and `rindex` on a path.
use tele_sync.Prelude.{
  ℕ, ◌≡◌, refl, List, [], ◌∷◌, ◌++◌, Option, none, some, Bool, true, false, arith, if◌then◌else◌,
  same_name, same_name→eq,
}
use tele_sync.FileMonitor.{path}
use tele_sync.FileMonitor.Paths.{no_slash}
use tele_sync.FileMonitor.Watch.{MonitorTarget, MonitorTable, find_target, rindex}

pub find_target-append :
    (q : List ℕ) (ts : List MonitorTarget) (t : MonitorTarget)
    → find_target q (ts ++ t ∷ []) ≡ elim (find_target q ts) [
      | none ↦ if same_name t.logic_name q then some t else none
      | some old ↦ some old
    ]
unfolding find_target
find_target-append q [] t = refl
find_target-append q (x ∷ ts) t = ground (arith, find_target-append q ts t)

pub find_target-name :
    (q : List ℕ) (ts : List MonitorTarget) (t : MonitorTarget)
    → find_target q ts ≡ some t
    → t.logic_name ≡ q
unfolding find_target
find_target-name q [] t h = absurd (cc)
find_target-name q (x ∷ ts) t h =
    ground (arith, find_target-name q ts t, same_name→eq x.logic_name q)

pub rindex-none : (f : List ℕ) → no_slash f ≡ true → rindex f ≡ none
unfolding rindex no_slash
rindex-none [] h = refl
rindex-none (c ∷ f) h = ground (arith, rindex-none f)

pub rindex-path : (a f : List ℕ) → no_slash f ≡ true → rindex (path a f) ≡ some (a, b'/' ∷ f)
unfolding rindex path
rindex-path [] f h = rw (rindex-none f h) refl
rindex-path (x ∷ a) f h = rw (rindex-path a f h) refl

pub append_cancel : (a b c : List ℕ) → a ++ b ≡ a ++ c → b ≡ c
append_cancel [] b c h = h
append_cancel (x ∷ a) b c h = append_cancel a b c (ground arith)

abbrev pub is_found : Option MonitorTarget → Bool
is_found none = false
is_found (some t) = true

-- There is a target of that logic name.
abbrev pub Found : List ℕ → MonitorTable → Type 0
Found q table = is_found (find_target q table.head) ≡ true

pub some_inj : {t u : MonitorTarget} → some t ≡ some u → t ≡ u
some_inj e = ground arith

pub last_found :
    (q : List ℕ) (ts : List MonitorTarget) (t u : MonitorTarget)
    → find_target q ts ≡ none
    → find_target q (ts ++ t ∷ []) ≡ some u
    → t ≡ u
last_found q ts t u e h = ground (arith, find_target-append q ts t)
