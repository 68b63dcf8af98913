-- ===== src/Client/Held.antt =====
-- A port of client/start.c from the time it is handed out to the time it is given back.
use tele_sync.Prelude.{
  ℕ, zero, suc, ◌+◌, ◌-◌, ◌≤◌, ◌<◌, ◌≡◌, ◌≢◌, refl, sym, ap, subst, List, [], ◌∷◌, Option, none,
  some, Bool, true, false, not, arith, ◌==◌, ◌&&◌, ◌||◌, ltb, leb, set, length, Option-cases,
  Bool-cases, inl, inr,
}
use tele_sync.Client.Ports.{
  base_p2p_port, first_free, get_free_p2p_port, put_p2p_port, get_free_got, get_free_none,
  get_free-ne, shifted, get_free-put_p2p_port,
}

-- The calls of the uploads, one after the other under their mutex.
pub data PortCall : Type 0 where
  get_free : PortCall
  put : ℕ → PortCall

-- `none` where a call writes outside of the array.
unfoldable pub port_call : List ℕ → PortCall → Option (List ℕ)
port_call ports get_free = some (get_free_p2p_port ports).0
port_call ports (put port) = put_p2p_port ports port

unfoldable pub port_calls : Option (List ℕ) → List PortCall → Option (List ℕ)
port_calls none calls = none
port_calls (some ports) [] = some ports
port_calls (some ports) (call ∷ calls) = port_calls (port_call ports call) calls

unfoldable pub is_put : ℕ → PortCall → Bool
is_put port get_free = false
is_put port (put p) = p == port

-- Is the port given back by one of the calls?
unfoldable pub given_back : ℕ → List PortCall → Bool
given_back port [] = false
given_back port (call ∷ calls) = is_put port call || given_back port calls

-- Is the entry of the array marked?
unfoldable is_taken : List ℕ → ℕ → Bool
is_taken [] i = false
is_taken (p ∷ ports) zero = not (p == 0)
is_taken (p ∷ ports) (suc i) = is_taken ports i

taken_later :
    (ports : List ℕ) (i j : ℕ) → is_taken ports i ≡ true → is_taken (set ports j 1) i ≡ true
unfolding is_taken
taken_later [] i j h = absurd (cc)
taken_later (p ∷ ports) zero zero h = refl
taken_later (p ∷ ports) zero (suc j) h = h
taken_later (p ∷ ports) (suc i) zero h = h
taken_later (p ∷ ports) (suc i) (suc j) h = taken_later ports i j h

taken_beside :
    (ports : List ℕ) (i j : ℕ) → i ≢ j → is_taken ports i ≡ true → is_taken (set ports j 0) i ≡ true
unfolding is_taken
taken_beside [] i j ne h = absurd (cc)
taken_beside (p ∷ ports) zero zero ne h = absurd (ne refl)
taken_beside (p ∷ ports) zero (suc j) ne h = h
taken_beside (p ∷ ports) (suc i) zero ne h = h
taken_beside (p ∷ ports) (suc i) (suc j) ne h = taken_beside ports i j (λ e. ne (ap suc e)) h

taken_now : (ports : List ℕ) (i : ℕ) → first_free ports ≡ some i → is_taken (set ports i 1) i ≡ true
unfolding first_free is_taken
taken_now [] i h = absurd (cc)
taken_now (p ∷ ports) zero h = refl
taken_now (p ∷ ports) (suc i) h = taken_now ports i (ground arith)

not_free : (ports : List ℕ) (i : ℕ) → is_taken ports i ≡ true → first_free ports ≢ some i
unfolding first_free is_taken
not_free [] i h e = absurd (cc)
not_free (p ∷ ports) zero h e = ground (arith, shifted (first_free ports))
not_free (p ∷ ports) (suc i) h e = not_free ports i h (ground arith)

put-taken :
    (ports ports' : List ℕ) (i p : ℕ)
    → is_taken ports i ≡ true
    → (p == i + base_p2p_port) ≡ false
    → put_p2p_port ports p ≡ some ports'
    → is_taken ports' i ≡ true
unfolding put_p2p_port
put-taken ports ports' i p h other e =
    elim (Bool-cases (leb base_p2p_port p && ltb (p - base_p2p_port) (length ports))) [
      | inl inside ↦
          let ne : i ≢ p - base_p2p_port = λ q. ground arith in
          let same : set ports (p - base_p2p_port) 0 ≡ ports' = ground arith in
          subst (λ xs. is_taken xs i ≡ true) same (taken_beside ports i (p - base_p2p_port) ne h)
      | inr outside ↦ absurd (ground arith)
    ]

get-taken :
    (ports : List ℕ) (i : ℕ)
    → is_taken ports i ≡ true
    → is_taken (get_free_p2p_port ports).0 i ≡ true
get-taken ports i h = elim (Option-cases (first_free ports)) [
  | inl e ↦ rw (get_free_none ports e) h
  | inr (j, e) ↦ rw (get_free_got ports j e) (taken_later ports i j h)
]

no_ports : (calls : List PortCall) (ports : List ℕ) → port_calls none calls ≢ some ports
unfolding port_calls
no_ports calls ports e = cc

port_call-taken :
    (ports ports' : List ℕ) (i : ℕ) (call : PortCall)
    → is_taken ports i ≡ true
    → is_put (i + base_p2p_port) call ≡ false
    → port_call ports call ≡ some ports'
    → is_taken ports' i ≡ true
unfolding port_call is_put
port_call-taken ports ports' i get_free h kept e =
    let same : (get_free_p2p_port ports).0 ≡ ports' = ground arith in
    subst (λ xs. is_taken xs i ≡ true) same (get-taken ports i h)
port_call-taken ports ports' i (put p) h kept e = put-taken ports ports' i p h kept e

port_calls-taken :
    (ports ports' : List ℕ) (i : ℕ) (calls : List PortCall)
    → is_taken ports i ≡ true
    → given_back (i + base_p2p_port) calls ≡ false
    → port_calls (some ports) calls ≡ some ports'
    → is_taken ports' i ≡ true
unfolding port_calls given_back
port_calls-taken ports ports' i [] h kept e = subst (λ xs. is_taken xs i ≡ true) (ground arith) h
port_calls-taken ports ports' i (call ∷ calls) h kept e =
    elim (Option-cases (port_call ports call)) [
      | inl outside ↦
          absurd (no_ports calls ports' (subst (λ o. port_calls o calls ≡ some ports') outside e))
      | inr (next, inside) ↦
          port_calls-taken next ports' i calls
            (port_call-taken ports next i call h (ground arith) inside) (ground arith)
            (subst (λ o. port_calls o calls ≡ some ports') inside e)
    ]

-- The entry of a port that is handed out.
handed_out :
    (ports : List ℕ) (port : ℕ)
    → (get_free_p2p_port ports).1 ≡ some port
    → (i : ℕ) × (port ≡ i + base_p2p_port) × (is_taken (get_free_p2p_port ports).0 i ≡ true)
handed_out ports port h = elim (Option-cases (first_free ports)) [
  | inl e ↦ absurd (ground (arith, get_free_none ports e))
  | inr (i, e) ↦
      let at : port ≡ i + base_p2p_port = ground (arith, get_free_got ports i e) in
      (i, at, rw (get_free_got ports i e) (taken_now ports i e))
]

-- A port that is handed out lies in the range; giving it back at once restores the array; and whatever
-- calls follow, if they stay within the array and none of them gives the port back, it is not handed out
-- again.
pub get_free_p2p_port-held :
    (ports later : List ℕ) (port : ℕ) (calls : List PortCall)
    → (get_free_p2p_port ports).1 ≡ some port
    → given_back port calls ≡ false
    → port_calls (some (get_free_p2p_port ports).0) calls ≡ some later
    → (base_p2p_port ≤ port)
      × (port < base_p2p_port + length ports)
      × (put_p2p_port (get_free_p2p_port ports).0 port ≡ some ports)
      × ((get_free_p2p_port later).1 ≢ some port)
get_free_p2p_port-held ports later port calls h kept run =
    let (low, high, back, again) = get_free-put_p2p_port ports port h in
    let (i, at, marked) = handed_out ports port h in
    let still =
      port_calls-taken (get_free_p2p_port ports).0 later i calls marked
        (subst (λ p. given_back p calls ≡ false) at kept) run in
    (
      low,
      high,
      back,
      subst (λ p. (get_free_p2p_port later).1 ≢ some p) (sym at)
          (get_free-ne later i (not_free later i still)),
    )
