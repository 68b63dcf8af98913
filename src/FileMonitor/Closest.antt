-- ===== src/FileMonitor/Closest.antt =====
-- The search of `file_monitor_block` in client/file_monitor.c for a directory above that is watched.
use mathlib.Core.List.{append_assoc, append-nil}
use tele_sync.Prelude.{
  ℕ, suc, ◌≡◌, refl, sym, ap, subst, ◌∙◌, List, [], ◌∷◌, ◌++◌, Option, none, some, Bool, true,
  false, ◌==◌, ◌&&◌, if◌then◌else◌, arith, Option-cases, Bool-cases, inl, inr, length, drop,
}
use tele_sync.FileMonitor.{path}
use tele_sync.FileMonitor.Paths.{no_slash}
use tele_sync.FileMonitor.Watch.{MonitorTarget, find_target}
use tele_sync.FileMonitor.Lookup.{find_target-name, is_found}
use tele_sync.FileMonitor.Block.{has_slash, or_before, closest}

-- A target of the list whose name is followed by a slash in the logic name.
unfoldable pub Above : List MonitorTarget → List ℕ → Option MonitorTarget → Type 0
Above head logic none = Unit {0}
Above head logic (some t) =
    (find_target t.logic_name head ≡ some t) × ((rest : List ℕ) × (path t.logic_name rest ≡ logic))

found_here :
    (head : List MonitorTarget) (name cs : List ℕ) (c : ℕ) (t : MonitorTarget)
    → find_target name head ≡ some t
    → (c == b'/') ≡ true
    → Above head (name ++ c ∷ cs) (some t)
unfolding Above path
found_here head name cs c t e slash =
    let same : t.logic_name ≡ name = find_target-name name head t e in
    let here : c ≡ b'/' = ground arith in
    (
      ap (λ n. find_target n head) same ∙ e,
      (cs, ap (λ n. n ++ b'/' ∷ cs) same ∙ ap (λ x. name ++ x ∷ cs) (sym here)),
    )

step-Above :
    (head : List MonitorTarget) (name cs : List ℕ) (c : ℕ) (found : Option MonitorTarget)
    → Above head (name ++ c ∷ cs) found
    → Above head
        (name ++ c ∷ cs)
        (if c == b'/' && has_slash cs then or_before (find_target name head) found else found)
unfolding or_before
step-Above head name cs c found a = elim (Bool-cases (c == b'/' && has_slash cs)) [
  | inl e ↦ elim (Option-cases (find_target name head)) [
    | inl x ↦ rw (e, x) a
    | inr (t, x) ↦ rw (e, x) (found_here head name cs c t x (ground arith))
  ]
  | inr e ↦ rw e a
]

pub closest-Above :
    (head : List MonitorTarget) (found : Option MonitorTarget) (name cs : List ℕ)
    → Above head (name ++ cs) found
    → Above head (name ++ cs) (closest head found name cs)
unfolding closest
closest-Above head found name [] a = a
closest-Above head found name (c ∷ cs) a =
    let next =
      if c == b'/' && has_slash cs then or_before (find_target name head) found else found in
    let same : (name ++ c ∷ []) ++ cs ≡ name ++ c ∷ cs = append_assoc name (c ∷ []) cs in
    subst (λ l. Above head l (closest head next (name ++ c ∷ []) cs)) same
      (closest-Above head next (name ++ c ∷ []) cs
        (subst (λ l. Above head l next) (sym same) (step-Above head name cs c found a)))

or_before-is_found :
    (x found : Option MonitorTarget) → is_found found ≡ true → is_found (or_before x found) ≡ true
unfolding or_before
or_before-is_found none found h = h
or_before-is_found (some t) found h = refl

step-is_found :
    (x found : Option MonitorTarget) (b : Bool)
    → is_found found ≡ true
    → is_found (if b then or_before x found else found) ≡ true
step-is_found x found true h = or_before-is_found x found h
step-is_found x found false h = h

closest-is_found :
    (head : List MonitorTarget) (found : Option MonitorTarget) (name cs : List ℕ)
    → is_found found ≡ true
    → is_found (closest head found name cs) ≡ true
unfolding closest
closest-is_found head found name [] h = h
closest-is_found head found name (c ∷ cs) h =
    closest-is_found head
      (if c == b'/' && has_slash cs then or_before (find_target name head) found else found)
      (name ++ c ∷ []) cs
      (step-is_found (find_target name head) found (c == b'/' && has_slash cs) h)

or_before-found :
    (x found : Option MonitorTarget) → is_found x ≡ true → is_found (or_before x found) ≡ true
unfolding or_before
or_before-found none found h = absurd (cc)
or_before-found (some t) found h = refl

-- A directory that is watched and followed by two slashes is found, or a longer one.
pub closest-watched :
    (head : List MonitorTarget) (found : Option MonitorTarget) (name x rest : List ℕ)
    → no_slash x ≡ true
    → has_slash rest ≡ true
    → is_found (find_target (name ++ x) head) ≡ true
    → is_found (closest head found name (x ++ b'/' ∷ rest)) ≡ true
unfolding closest no_slash
closest-watched head found name [] rest p s h =
    let here : is_found (find_target name head) ≡ true =
      subst (λ n. is_found (find_target n head) ≡ true) (append-nil name) h in
    let next : (if has_slash rest then or_before (find_target name head) found else found)
        ≡ or_before (find_target name head) found =
      rw s refl in
    subst (λ f. is_found (closest head f (name ++ b'/' ∷ []) rest) ≡ true) (sym next)
      (closest-is_found head (or_before (find_target name head) found) (name ++ b'/' ∷ []) rest
        (or_before-found (find_target name head) found here))
closest-watched head found name (c ∷ x) rest p s h =
    closest-watched head
      (if c == b'/' && has_slash (x ++ b'/' ∷ rest)
        then or_before (find_target name head) found
        else found)
      (name ++ c ∷ []) x rest (ground arith) s
      (subst (λ n. is_found (find_target n head) ≡ true) (sym (append_assoc name (c ∷ []) x)) h)

pub no_slash-has_slash : (cs : List ℕ) → has_slash cs ≡ false → no_slash cs ≡ true
unfolding has_slash no_slash
no_slash-has_slash [] h = refl
no_slash-has_slash (c ∷ cs) h = ground (arith, no_slash-has_slash cs)

-- A name with a slash is split at its last one.
pub split_last :
    (s : List ℕ)
    → has_slash s ≡ true
    → (before : List ℕ) × (name : List ℕ) × (s ≡ path before name) × (no_slash name ≡ true)
unfolding has_slash path
split_last [] h = absurd (cc)
split_last (c ∷ cs) h = elim (Bool-cases (has_slash cs)) [
  | inl later ↦
      let (before, name, e, plain) = split_last cs later in (c ∷ before, name, ap (c ∷◌) e, plain)
  | inr last ↦
      let slash : c ≡ b'/' = ground arith in
      ([], cs, ap (λ x. x ∷ cs) slash, no_slash-has_slash cs last)
]

pub drop-path : (a rest : List ℕ) → drop (suc (length a)) (path a rest) ≡ rest
unfolding path
drop-path [] rest = refl
drop-path (x ∷ a) rest = drop-path a rest
