-- ===== src/Client/Ports.antt =====
-- The ports of client/start.c that uploads take and give back.
use tele_sync.Prelude.{
  ℕ, zero, suc, ◌+◌, ◌-◌, ◌≤◌, ◌<◌, ◌≡◌, ◌≢◌, refl, sym, ap, false, List, [], ◌∷◌, Option, none,
  some, arith, ◌==◌, ◌&&◌, ltb, leb, if◌then◌else◌, set, length, length-set, true, ◌∙◌, replicate,
  Option-cases, inl, inr,
}

abbrev pub base_p2p_port : ℕ
base_p2p_port = 5100

abbrev pub max_p2p_port : ℕ
max_p2p_port = 1000

-- The array `p2p_ports` at the start.
unfoldable pub p2p_ports : List ℕ
p2p_ports = replicate max_p2p_port 0

unfoldable pub first_free : List ℕ → Option ℕ
first_free [] = none
first_free (p ∷ ports) =
    let rest = first_free ports in
    if p == 0 then some 0 else elim rest [ none ↦ none | some i ↦ some (suc i) ]

-- The array and the port, or -1.
unfoldable pub get_free_p2p_port : List ℕ → List ℕ × Option ℕ
get_free_p2p_port ports = elim (first_free ports) [
  | none ↦ (ports, none)
  | some i ↦ (set ports i 1, some (i + base_p2p_port))
]

-- `none` where the code writes outside of the array.
unfoldable pub put_p2p_port : List ℕ → ℕ → Option (List ℕ)
put_p2p_port ports port =
    if leb base_p2p_port port && ltb (port - base_p2p_port) (length ports)
    then some (set ports (port - base_p2p_port) 0)
    else none

pub shifted :
    (o : Option ℕ)
    → (let r : Option ℕ = elim o [ none ↦ none | some i ↦ some (suc i) ] in r) ≢ some 0
shifted none e = cc
shifted (some i) e = absurd (ground arith)

first_free-set :
    (ports : List ℕ) (i : ℕ)
    → first_free ports ≡ some i
    → (i < length ports) × (set (set ports i 1) i 0 ≡ ports) × (first_free (set ports i 1) ≢ some i)
unfolding first_free
first_free-set [] i h = absurd (cc)
first_free-set (p ∷ ports) zero h =
    let free : p ≡ 0 = ground (arith, shifted (first_free ports)) in
    (omega arith, ap (λ x. x ∷ ports) (sym free), shifted (first_free ports))
first_free-set (p ∷ ports) (suc i) h =
    let taken : (p == 0) ≡ false = ground arith in
    let rest = first_free-set ports i (ground arith) in
    (omega (arith, rest.0), ap (λ xs. p ∷ xs) rest.1, λ e. rest.2 (ground arith))

put-at :
    (ports : List ℕ) (i : ℕ)
    → i < length ports
    → put_p2p_port ports (i + base_p2p_port) ≡ some (set ports i 0)
unfolding put_p2p_port
put-at ports i h =
    let back : i + 5100 - 5100 ≡ i = omega arith in
    let low : leb 5100 (i + 5100) ≡ true = ground arith in
    let high : ltb i (length ports) ≡ true = ground arith in rw (low, back, high) refl

pub get_free-ne :
    (ports : List ℕ) (i : ℕ)
    → first_free ports ≢ some i
    → (get_free_p2p_port ports).1 ≢ some (i + base_p2p_port)
unfolding get_free_p2p_port
get_free-ne ports i h = elim (Option-cases (first_free ports)) [
  | inl e ↦ λ q. ground arith
  | inr (k, e) ↦ λ q. let differ : k ≢ i = λ same. h (e ∙ ap some same) in ground arith
]

pub get_free_got :
    (ports : List ℕ) (i : ℕ)
    → first_free ports ≡ some i
    → get_free_p2p_port ports ≡ (set ports i 1, some (i + base_p2p_port))
unfolding get_free_p2p_port
get_free_got ports i e = rw (e, get_free_p2p_port) refl

pub get_free_none :
    (ports : List ℕ) → first_free ports ≡ none → get_free_p2p_port ports ≡ (ports, none)
unfolding get_free_p2p_port
get_free_none ports e = rw (e, get_free_p2p_port) refl

-- A port that is handed out lies in the range, is not handed out again before it is given back, and
-- giving it back restores the array.
pub get_free-put_p2p_port :
    (ports : List ℕ) (port : ℕ)
    → (get_free_p2p_port ports).1 ≡ some port
    → (base_p2p_port ≤ port)
      × (port < base_p2p_port + length ports)
      × (put_p2p_port (get_free_p2p_port ports).0 port ≡ some ports)
      × ((get_free_p2p_port (get_free_p2p_port ports).0).1 ≢ some port)
get_free-put_p2p_port ports port h = elim (Option-cases (first_free ports)) [
  | inl e ↦ absurd (ground (arith, get_free_none ports e))
  | inr (i, e) ↦
      let l = first_free-set ports i e in
      let got = get_free_got ports i e in
      let at : port ≡ i + base_p2p_port = ground arith in
      let size = length-set ports i 1 in
      rw (at, got)
        (
          omega arith,
          omega (arith, l.0),
          put-at (set ports i 1) i (omega (arith, l.0)) ∙ ap some l.1,
          get_free-ne (set ports i 1) i l.2,
        )
]
