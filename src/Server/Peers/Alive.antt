-- ===== src/Server/Peers/Alive.antt =====
-- The keep-alive protocol of server/start.c: `peer_check_alive_task` against `peer_life_update_task`.
use tele_sync.Prelude.{
  ℕ, zero, suc, ◌+◌, ◌*◌, ◌%◌, ◌^◌, ◌≤◌, ◌<◌, ◌≡◌, ◌≢◌, refl, sym, subst, ap, ◌∙◌, List, [], ◌∷◌,
  Option, none, some, Bool, false, arith, ◌==◌, ◌||◌, if◌then◌else◌, Bool-cases, Option-cases, inl,
  inr,
}
use tele_sync.PeerTable.{PeerTable, peer_table_find, find_ip}
use tele_sync.PeerTable.Laws.{find-stamp_ip}
use tele_sync.Server.{Tracker, ControlInfo}
use tele_sync.Server.Peers.{
  peer_life_update_task, check_alive_round, watching, cancelled, peer_check_alive_task,
}

-- `k` keep-alive packets of the peer.
unfoldable pub keep_alives : ℕ → Tracker → ℕ → Tracker
keep_alives zero tracker ip = tracker
keep_alives (suc k) tracker ip = keep_alives k (peer_life_update_task tracker ip) ip

-- The peer tables that the rounds meet, if `k` packets arrive before each.
unfoldable pub rounds : List ℕ → Tracker → ℕ → List PeerTable
rounds [] tracker ip = []
rounds (k ∷ ks) tracker ip = (keep_alives k tracker ip).pt ∷ rounds ks (keep_alives k tracker ip) ip

unfoldable pub silent : List ℕ → Bool
silent [] = false
silent (k ∷ ks) = k == 0 || silent ks

-- The packets of one round do not take the clock round its 64 bits.
abbrev pub Modest : ℕ → List ℕ → Type 0
Modest interval [] = Unit {0}
Modest interval (k ∷ ks) = (k * interval < 2 ^ 64) × Modest interval ks

abbrev pub time_at : Tracker → ℕ → Option ℕ
time_at tracker ip = elim (peer_table_find tracker.pt ip) [
  | none ↦ none
  | some pe ↦ some pe.timestamp
]

life_update-time :
    (tracker : Tracker) (ip time : ℕ)
    → time_at tracker ip ≡ some time
    → time_at (peer_life_update_task tracker ip) ip
      ≡ some ((time + tracker.ctr_info.interval) % 2 ^ 64)
unfolding peer_life_update_task peer_table_find
life_update-time tracker ip time h = elim (Option-cases (find_ip ip tracker.pt.peers)) [
  | inl e ↦ ground arith
  | inr (pe, e) ↦ ground (
    arith,
    find-stamp_ip ip ip ((pe.timestamp + tracker.ctr_info.interval) % 2 ^ 64) tracker.pt.peers,
  )
]

life_update-ctr_info :
    (tracker : Tracker) (ip : ℕ) → (peer_life_update_task tracker ip).ctr_info ≡ tracker.ctr_info
unfolding peer_life_update_task
life_update-ctr_info tracker ip = ground arith

keep_alives-ctr_info :
    (k : ℕ) (tracker : Tracker) (ip : ℕ) → (keep_alives k tracker ip).ctr_info ≡ tracker.ctr_info
unfolding keep_alives
keep_alives-ctr_info zero tracker ip = refl
keep_alives-ctr_info (suc k) tracker ip =
    keep_alives-ctr_info k (peer_life_update_task tracker ip) ip ∙ life_update-ctr_info tracker ip

sum_times :
    (k time interval i : ℕ)
    → i ≡ interval
    → ((time + interval) % 2 ^ 64 + k * i) % 2 ^ 64 ≡ (time + suc k * interval) % 2 ^ 64
sum_times k time interval i e = rw e (omega arith)

keep_alives-time :
    (k : ℕ) (tracker : Tracker) (ip time : ℕ)
    → time < 2 ^ 64
    → time_at tracker ip ≡ some time
    → time_at (keep_alives k tracker ip) ip ≡ some ((time + k * tracker.ctr_info.interval) % 2 ^ 64)
unfolding keep_alives
keep_alives-time zero tracker ip time small h =
    h ∙ ap some (let e : time ≡ (time + 0 * tracker.ctr_info.interval) % 2 ^ 64 = omega arith in e)
keep_alives-time (suc k) tracker ip time small h =
    let interval = tracker.ctr_info.interval in
    let ih =
      keep_alives-time k (peer_life_update_task tracker ip) ip ((time + interval) % 2 ^ 64)
        (omega arith) (life_update-time tracker ip time h) in
    ih
    ∙ ap some (
        sum_times k time interval (peer_life_update_task tracker ip).ctr_info.interval
          (ap (λ (c : ControlInfo). c.interval) (life_update-ctr_info tracker ip)))

-- A round cancels exactly if the time is the one of the round before.
round_lem :
    (tracker : Tracker) (ip last time : ℕ)
    → time_at tracker ip ≡ some time
    → check_alive_round tracker.pt ip last ≡ (if time == last then none else some time)
unfolding check_alive_round
round_lem tracker ip last time h = elim (Option-cases (peer_table_find tracker.pt ip)) [
  | inl e ↦ ground arith
  | inr (pe, e) ↦ ground arith
]

le-mul : (k interval : ℕ) → interval ≤ suc k * interval
le-mul k interval = grind arith

==_ne : (a b : ℕ) → a ≢ b → a == b ≡ false
==_ne a b h = ground arith

moved_on :
    (k interval time : ℕ)
    → 0 < interval
    → k * interval < 2 ^ 64
    → time < 2 ^ 64
    → (((time + k * interval) % 2 ^ 64) == time) ≡ (k == 0)
moved_on zero interval time pos modest small = ground arith
moved_on (suc k) interval time pos modest small =
    let x = suc k * interval in
    let some_time : 0 < x = omega (arith, le-mul k interval) in
    let ne : (time + x) % 2 ^ 64 ≢ time = omega arith in rw (==_ne _ _ ne) (ground arith)

-- A peer whose time has been noted is dropped in the first round before which no keep-alive came, and
-- kept as long as there is none.
pub peer_check_alive_task-silent :
    (ks : List ℕ) (tracker : Tracker) (ip time : ℕ)
    → time < 2 ^ 64
    → 0 < tracker.ctr_info.interval
    → time_at tracker ip ≡ some time
    → Modest tracker.ctr_info.interval ks
    → peer_check_alive_task ip time (rounds ks tracker ip)
      ≡ (if silent ks then cancelled else watching)
unfolding peer_check_alive_task rounds silent
peer_check_alive_task-silent [] tracker ip time small pos h modest = refl
peer_check_alive_task-silent (k ∷ ks) tracker ip time small pos h modest =
    let next = keep_alives k tracker ip in
    let time' = (time + k * tracker.ctr_info.interval) % 2 ^ 64 in
    let h' = keep_alives-time k tracker ip time small h in
    let same : next.ctr_info.interval ≡ tracker.ctr_info.interval =
      ap (λ (c : ControlInfo). c.interval) (keep_alives-ctr_info k tracker ip) in
    let ih =
      peer_check_alive_task-silent ks next ip time' (omega arith)
        (subst (λ i. 0 < i) (sym same) pos) h' (subst (λ i. Modest i ks) (sym same) modest.1) in
    let moved = moved_on k tracker.ctr_info.interval time pos modest.0 small in
    elim (Bool-cases (k == 0)) [
      | inl none_came ↦
          rw (round_lem next ip time time' h', peer_check_alive_task, moved, none_came)
      | inr some_came ↦
          rw (round_lem next ip time time' h', peer_check_alive_task, moved, some_came) ih
    ]
