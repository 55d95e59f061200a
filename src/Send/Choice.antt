-- ===== src/Send/Choice.antt =====
-- What the sending functions put on which wire.
use kcpev.Base.{
  ℕ, ◌+◌, ◌≤◌, ◌≡◌, sym, List, ◌∷◌, ◌++◌, if◌then◌else◌, length, take, take-append, pos, minus_one,
  int_eq, ok, arith,
}
use kcpev.Header.{header_size, buffer_size, pack_send_buf}
use kcpev.Header.Packing.{packet, length-packet, pack_send_buf-packet}
use kcpev.Conn.{sends, kcp_sends, Env, HasStack, World}
use kcpev.Send.{is_kcp_valid, sock_send_command, kcp_send_command, kcpev_send_command, udp_output}

-- The world after a `send`, and after an `ikcp_send`.
abbrev pub after_send : World → ℕ → List ℕ → World
after_send w sock p = record w { calls = sends sock p ∷ w.calls }

abbrev pub after_kcp_send : World → List ℕ → World
after_kcp_send w p = record w { calls = kcp_sends w.me.self p ∷ w.calls }

module _ (e : Env) (stack : HasStack e) (w : World) (command : ℕ) (msg : List ℕ)
    (fits : length msg + header_size ≤ buffer_size) where
  -- The packet in the buffer.
  packed :
      (pad : List ℕ) × (rest : List ℕ) × (length pad ≡ 3)
      × (pack_send_buf (e.stack w.calls) command msg
          ≡ ok (length msg + header_size, packet command pad msg ++ rest))
      × (take (length msg + header_size) (packet command pad msg ++ rest) ≡ packet command pad msg)
  packed =
      let (pad, rest, f, _, p) =
        pack_send_buf-packet (e.stack w.calls) msg command (omega (arith, stack w.calls))
          (omega (arith, stack w.calls)) in
      (
        pad,
        rest,
        f,
        p,
        take-append (length msg + header_size) (packet command pad msg) rest
            (sym (length-packet command pad msg f)),
      )

  -- A message that fits in the buffer goes out in one `send` of one packet, and nothing else changes;
  -- the result is 0 if all of it went out, -1 if not.
  pub sock_send_command_lem :
      (sock : ℕ)
      → (pad : List ℕ) × (length pad ≡ 3)
        × (sock_send_command e sock command msg w
            ≡ ok (
              if int_eq
                    (e.send w.calls sock (packet command pad msg))
                    (pos (length msg + header_size))
                  then pos 0
                  else minus_one,
              after_send w sock (packet command pad msg),
            ))
  unfolding sock_send_command
  sock_send_command_lem sock = let (pad, rest, f, p, q) = packed in (pad, f, ground (arith, p, q))

  pub kcp_send_command_lem :
      (pad : List ℕ) × (length pad ≡ 3)
      × (kcp_send_command e command msg w
          ≡ ok (
              if is_kcp_valid w.me
              then (
                e.kcp_send w.calls w.me.self (packet command pad msg),
                after_kcp_send w (packet command pad msg),
              )
              else (minus_one, w)))
  unfolding kcp_send_command
  kcp_send_command_lem = let (pad, rest, f, p, q) = packed in (pad, f, ground (arith, p, q))

  -- A message that fits goes out as one packet on one wire: through kcp where UDP can be used, with
  -- the result of `ikcp_send`, and through the TCP socket where it cannot, with 0 if the whole packet
  -- went out and -1 if not.
  pub kcpev_send_command_lem :
      (pad : List ℕ) × (length pad ≡ 3)
      × (kcpev_send_command e command msg w
          ≡ ok (
              if is_kcp_valid w.me
              then (
                e.kcp_send w.calls w.me.self (packet command pad msg),
                after_kcp_send w (packet command pad msg),
              )
              else (
                if int_eq
                      (e.send w.calls w.me.tcp.sock (packet command pad msg))
                      (pos (length msg + header_size))
                    then pos 0
                    else minus_one,
                after_send w w.me.tcp.sock (packet command pad msg),
              )))
  unfolding kcpev_send_command
  kcpev_send_command_lem = let (pad, rest, f, p, q) = packed in (pad, f, ground (arith, p, q))

-- The output callback sends once over the UDP socket, and nothing else.
pub udp_output_lem :
    (e : Env) (bytes : List ℕ) (w : World)
    → udp_output e bytes w ≡ ok (pos 0, after_send w w.me.udp.sock bytes)
unfolding udp_output
udp_output_lem e bytes w = ground arith
