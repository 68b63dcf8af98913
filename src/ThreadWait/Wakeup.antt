-- ===== src/ThreadWait/Wakeup.antt =====
-- When the thread that waits in utility/pthread_wait.c goes on.
use tele_sync.Prelude.{
  ◌≡◌, ◌≢◌, refl, ◌++◌, subst, List, [], ◌∷◌, none, some, Bool, true, false, arith, ◌||◌,
  if◌then◌else◌, Option-cases, Bool-cases, inl, inr,
}
use tele_sync.ThreadWait.{
  ThreadStatus, Waiter, starting, ready, blocked, woken, Wait, Call, wait_init, wait_for, wake_up,
  notify, pthread_wait_init, pthread_wait_for, pthread_wait_notify, signalled, spurious, call,
  calls_from, at_start,
}

unfoldable pub is_wake_up : Call → Bool
is_wake_up wait_init = false
is_wake_up wait_for = false
is_wake_up wake_up = true
is_wake_up (notify status) = false

-- No call is a wake-up without a signal.
unfoldable pub no_wake_up : List Call → Bool
no_wake_up [] = true
no_wake_up (c ∷ cs) = elim (is_wake_up c) [ true ↦ false | false ↦ no_wake_up cs ]

unfoldable pub is_woken : Waiter → Bool
is_woken starting = false
is_woken ready = false
is_woken blocked = false
is_woken woken = true

unfoldable pub is_blocked : Waiter → Bool
is_blocked starting = false
is_blocked ready = false
is_blocked blocked = true
is_blocked woken = false

unfoldable pub is_wait_for : Call → Bool
is_wait_for wait_init = false
is_wait_for wait_for = true
is_wait_for wake_up = false
is_wait_for (notify status) = false

-- Has the thread begun to wait?
unfoldable pub has_waited : List Call → Bool
has_waited [] = false
has_waited (c ∷ cs) = is_wait_for c || has_waited cs

-- A call after the signal.
call_after :
    (w w' : Wait) (c : Call)
    → w.notified ≡ true
    → is_wake_up c ≡ false
    → call w c ≡ some w'
    → (w'.notified ≡ true)
      × (is_woken w'.waiter ≡ is_woken w.waiter)
      × ((if is_woken w.waiter then w'.status else w.status) ≡ w.status)
unfolding call pthread_wait_init pthread_wait_for pthread_wait_notify spurious is_wake_up is_woken
call_after w w' c n q e = ground arith

no_calls : (cs : List Call) (w : Wait) → calls_from none cs ≢ some w
unfolding calls_from
no_calls cs w e = cc

-- After the signal the thread that waits neither wakes up nor is anything changed if it has.
calls_after :
    (cs : List Call) (w w' : Wait)
    → w.notified ≡ true
    → no_wake_up cs ≡ true
    → calls_from (some w) cs ≡ some w'
    → (is_woken w'.waiter ≡ is_woken w.waiter)
      × ((if is_woken w.waiter then w'.status else w.status) ≡ w.status)
unfolding calls_from no_wake_up
calls_after [] w w' n q e = ground arith
calls_after (c ∷ cs) w w' n q e = elim (Option-cases (call w c)) [
  | inl nowhere ↦ absurd (no_calls cs w' (subst (λ o. calls_from o cs ≡ some w') nowhere e))
  | inr (u, here) ↦
      let quiet : is_wake_up c ≡ false = ground arith in
      let (n', k, s) = call_after w u c n quiet here in
      let (k', s') =
        calls_after cs u w' n' (ground arith) (subst (λ o. calls_from o cs ≡ some w') here e) in
      ground arith
]

second_notify :
    (w : Wait) (status : ThreadStatus) → w.notified ≡ true → call w (notify status) ≡ none
unfolding call pthread_wait_notify
second_notify w status n = rw n refl

-- A second signal does not come.
notified_once :
    (cs after : List Call) (status : ThreadStatus) (w w' : Wait)
    → w.notified ≡ true
    → no_wake_up (cs ++ notify status ∷ after) ≡ true
    → calls_from (some w) (cs ++ notify status ∷ after) ≢ some w'
unfolding calls_from no_wake_up
notified_once [] after status w w' n q e =
    no_calls after w' (subst (λ o. calls_from o after ≡ some w') (second_notify w status n) e)
notified_once (c ∷ cs) after status w w' n q e = elim (Option-cases (call w c)) [
  | inl nowhere ↦
      no_calls (cs ++ notify status ∷ after) w'
        (subst (λ o. calls_from o (cs ++ notify status ∷ after) ≡ some w') nowhere e)
  | inr (u, here) ↦
      notified_once cs after status u w' (call_after w u c n (ground arith) here).0 (ground arith)
        (subst (λ o. calls_from o (cs ++ notify status ∷ after) ≡ some w') here e)
]

-- A call before the signal.
call_before :
    (w w' : Wait) (c : Call)
    → w.notified ≡ false
    → is_woken w.waiter ≡ false
    → is_wake_up c ≡ false
    → w'.notified ≡ false
    → call w c ≡ some w'
    → (is_woken w'.waiter ≡ false) × (is_blocked w'.waiter ≡ is_blocked w.waiter || is_wait_for c)
unfolding call pthread_wait_init pthread_wait_for pthread_wait_notify spurious is_wake_up is_woken
    is_blocked is_wait_for
call_before w w' c n k q n' e = ground arith

at_signal :
    (w w' : Wait) (status : ThreadStatus)
    → w.notified ≡ false
    → is_woken w.waiter ≡ false
    → call w (notify status) ≡ some w'
    → (w'.notified ≡ true) × (is_woken w'.waiter ≡ is_blocked w.waiter) × (w'.status ≡ status)
unfolding call pthread_wait_notify signalled is_woken is_blocked
at_signal w w' status n k e = ground arith

run_with_signal :
    (before after : List Call) (status : ThreadStatus) (w w' : Wait)
    → w.notified ≡ false
    → is_woken w.waiter ≡ false
    → no_wake_up (before ++ notify status ∷ after) ≡ true
    → calls_from (some w) (before ++ notify status ∷ after) ≡ some w'
    → (is_woken w'.waiter ≡ is_blocked w.waiter || has_waited before)
      × ((if is_blocked w.waiter || has_waited before then w'.status else status) ≡ status)
unfolding calls_from no_wake_up has_waited is_wake_up
run_with_signal [] after status w w' n k q e = elim (Option-cases (call w (notify status))) [
  | inl nowhere ↦ absurd (no_calls after w' (subst (λ o. calls_from o after ≡ some w') nowhere e))
  | inr (u, here) ↦
      let (n', k', s) = at_signal w u status n k here in
      let (k'', s') =
        calls_after after u w' n' q (subst (λ o. calls_from o after ≡ some w') here e) in
      (ground arith, ground arith)
]
run_with_signal (c ∷ cs) after status w w' n k q e = elim (Option-cases (call w c)) [
  | inl nowhere ↦ absurd (
      no_calls (cs ++ notify status ∷ after) w'
        (subst (λ o. calls_from o (cs ++ notify status ∷ after) ≡ some w') nowhere e))
  | inr (u, here) ↦
      let later = subst (λ o. calls_from o (cs ++ notify status ∷ after) ≡ some w') here e in
      let quiet : no_wake_up (cs ++ notify status ∷ after) ≡ true = ground arith in
      elim (Bool-cases u.notified) [
        | inl told ↦ absurd (notified_once cs after status u w' told quiet later)
        | inr untold ↦
            let (k', b) = call_before w u c n k (ground arith) untold here in
            let (r, s) = run_with_signal cs after status u w' untold k' quiet later in
            (ground arith, ground arith)
      ]
]

-- When no thread wakes up without a signal, the thread that waits gets past `pthread_wait_for` exactly if
-- it waited before the notification, and then it finds the status that was notified; if the notification
-- came first it is lost, and the thread never goes on.
pub calls_from-notified :
    (before after : List Call) (status : ThreadStatus) (w : Wait)
    → no_wake_up (before ++ notify status ∷ after) ≡ true
    → calls_from (some at_start) (before ++ notify status ∷ after) ≡ some w
    → (is_woken w.waiter ≡ has_waited before)
      × ((if has_waited before then w.status else status) ≡ status)
unfolding is_blocked is_woken
calls_from-notified before after status w q e =
    run_with_signal before after status at_start w refl refl q e
