-- ===== src/Tests/Streams.antt =====
-- The ports of client/start.c and `my_read` of client/download.c at small inputs.
use tele_sync.Prelude.{
  ℕ, zero, suc, ◌≤◌, ◌<◌, ◌≡◌, ◌≢◌, refl, List, [], ◌∷◌, ◌++◌, Option, some, arith, length,
}
use tele_sync.Client.Ports.{first_free, get_free_p2p_port, put_p2p_port}
use tele_sync.Client.Held.{
  PortCall, get_free, put, port_call, port_calls, is_put, given_back, get_free_p2p_port-held,
}
use tele_sync.Download.Transfer.{bytes}

-- A stream that delivers one byte at a time.
sip : List ℕ → ℕ → List ℕ × Option (List ℕ)
sip [] n = ([], some [])
sip (c ∷ s) zero = (c ∷ s, some [])
sip (c ∷ s) (suc n) = (s, some (c ∷ []))

sip-delivers :
    (s : List ℕ) (n : ℕ) → (length (bytes (sip s n).1) ≤ n) × (s ≡ bytes (sip s n).1 ++ (sip s n).0)
unfolding sip
sip-delivers [] n = (omega arith, refl)
sip-delivers (c ∷ s) zero = (omega arith, refl)
sip-delivers (c ∷ s) (suc n) = (omega arith, refl)

-- The second of three ports is free.
abbrev ports : List ℕ
ports = 1 ∷ 0 ∷ 1 ∷ []

abbrev ports_later : List ℕ
ports_later = 1 ∷ 1 ∷ 1 ∷ []

-- Two more ports are asked for, the first of which is given back.
abbrev calls : List PortCall
calls = get_free ∷ put 5100 ∷ get_free ∷ []

get_free_p2p_port-held_example :
    (5100 ≤ 5101)
    × (5101 < 5103)
    × (put_p2p_port (get_free_p2p_port ports).0 5101 ≡ some ports)
    × ((get_free_p2p_port ports_later).1 ≢ some 5101)
unfolding get_free_p2p_port first_free port_calls port_call put_p2p_port given_back is_put
get_free_p2p_port-held_example = get_free_p2p_port-held ports ports_later 5101 calls refl refl refl
