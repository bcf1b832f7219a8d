-- ===== src/Sfu/Ingress/Stun/Safety.antt =====
-- The search for the user name stays inside the datagram.
use meeting_system.Prelude.{ℕ, zero, suc, ◌+◌, ◌*◌, ◌/◌, ◌≤◌, ◌<◌, ◌≡◌, true, List, length, arith}
use meeting_system.Prelude.Bytes.{is_ok, byte_at, be16}
use meeting_system.Sfu.Ingress.Stun.{is_stun_packet, username_loop, parse_stun_username}

username_loop-ok :
    (fuel : ℕ) (bytes : List ℕ) (end offset : ℕ)
    → end ≤ length bytes
    → end < offset + fuel
    → 0 < fuel
    → is_ok (username_loop fuel bytes end offset) ≡ true
unfolding username_loop
username_loop-ok zero bytes end offset inside enough some_fuel = absurd (omega arith)
username_loop-ok (suc fuel) bytes end offset inside enough some_fuel =
    let size = be16 (byte_at bytes (offset + 2)) (byte_at bytes (offset + 2 + 1)) in
    ground (arith, username_loop-ok fuel bytes end (offset + 4 + (size + 3) / 4 * 4))

-- Whatever datagram arrives, the search for a STUN user name ends and reads no byte outside it.
pub parse_stun_username-ok : (bytes : List ℕ) → is_ok (parse_stun_username bytes) ≡ true
unfolding parse_stun_username is_stun_packet
parse_stun_username-ok bytes =
    let size = be16 (byte_at bytes 2) (byte_at bytes (2 + 1)) in
    ground (arith, username_loop-ok (suc (length bytes)) bytes (20 + size) 20)
