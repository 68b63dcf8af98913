-- ===== src/Dialogue/Answers.antt =====
-- What the peer that asks learns from the peer that answers: client/download.c and client/start.c.
use tele_sync.Prelude.{
  ℕ, ◌%◌, ◌^◌, ◌<◌, ◌≡◌, refl, ◌∙◌, List, [], Option, some, Bool, true, arith, take, length, ◌≤◌,
}
use tele_sync.Wire.Bytes.{to_bytes, from_bytes, c_string-append, no_nul}
use tele_sync.Client.Ports.{get_free_p2p_port, get_free-put_p2p_port, max_p2p_port}
use tele_sync.Dialogue.{
  p2p_port_req, p2p_port_ret, p2p_packet_init, p2p_packet_fill, name_request, is_type, number_of,
  get_file_len_from, get_p2p_download_port, stored_port, ports_after, answer_len, answer_port,
  with_name, answer_as, ptop_upload,
}

-- The low four bytes of a size.
low_bytes : (v : ℕ) → from_bytes (take 4 (to_bytes 8 v)) ≡ v % 2 ^ 32
unfolding to_bytes from_bytes
low_bytes v = omega arith

two_bytes : (v : ℕ) → from_bytes (take 2 (to_bytes 2 v)) ≡ v % 2 ^ 16
unfolding to_bytes from_bytes
two_bytes v = omega arith

module _ (get_sys_name : List ℕ → Option (List ℕ)) (stat : List ℕ → Option ℕ) (listens : Bool)
    (ports : List ℕ) (name sys_name : List ℕ) (plain : no_nul name ≡ true)
    (known : get_sys_name name ≡ some sys_name) where
  -- A peer that asks the owner of a file for its length learns the size on the owner's disk, modulo 2 ^ 32.
  pub get_file_len_from-ptop_upload :
      (size : ℕ)
      → stat sys_name ≡ some size
      → get_file_len_from (λ req. (ptop_upload get_sys_name stat true listens ports req).reply) name
        ≡ size % 2 ^ 32
  unfolding get_file_len_from ptop_upload answer_as name_request p2p_packet_fill p2p_packet_init
      with_name answer_len number_of is_type
  get_file_len_from-ptop_upload size e =
      rw (c_string-append name [] plain, known, with_name, answer_len, e) (low_bytes size)

stored_port-small : (port : ℕ) → port < 2 ^ 16 → stored_port (some port) ≡ port
unfolding stored_port
stored_port-small port h = omega arith

answer_port-listening :
    (ports : List ℕ) (port : ℕ)
    → length ports ≤ max_p2p_port
    → (get_free_p2p_port ports).1 ≡ some port
    → answer_port true true ports ≡ record {
      reply = some (p2p_packet_fill (p2p_packet_init p2p_port_ret) (to_bytes 2 port));
      ports = ports;
      goes_on = true;
    }
unfolding answer_port ports_after
answer_port-listening ports port few e =
    let (low, high, back, again) = get_free-put_p2p_port ports port e in
    let plain : stored_port (some port) ≡ port = stored_port-small port (omega arith) in
    rw (e, plain, back) refl

module _ (get_sys_name : List ℕ → Option (List ℕ)) (stat : List ℕ → Option ℕ)
    (ports name sys_name : List ℕ) (plain : no_nul name ≡ true)
    (known : get_sys_name name ≡ some sys_name) where
  -- A peer that asks the owner of a file for a port learns the free port that the owner took, if there is
  -- one, and when the upload is over the ports are as they were.
  pub get_p2p_download_port-ptop_upload :
      (port : ℕ)
      → length ports ≤ max_p2p_port
      → (get_free_p2p_port ports).1 ≡ some port
      → (get_p2p_download_port
            (λ req. (ptop_upload get_sys_name stat true true ports req).reply)
            name
          ≡ port)
        × ((ptop_upload get_sys_name stat true true ports (name_request p2p_port_req name)).ports
            ≡ ports)
  unfolding get_p2p_download_port ptop_upload answer_as name_request p2p_packet_fill p2p_packet_init
      with_name number_of is_type
  get_p2p_download_port-ptop_upload port few e =
      let (low, high, back, again) = get_free-put_p2p_port ports port e in
      let got = answer_port-listening ports port few e in
      let name_read = c_string-append name [] plain in
      (
        rw (name_read, known, with_name, got) (two_bytes port ∙ omega arith),
        rw (name_read, known, with_name, got) refl,
      )
