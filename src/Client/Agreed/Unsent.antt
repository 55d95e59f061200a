-- ===== src/Client/Agreed/Unsent.antt =====
-- A packet with a key, whose answer cannot be sent.
use kcpev.Base.{ℕ, ◌≡◌, refl, true, List, length, ◌==◌, false, minus_one, ok, arith}
use kcpev.Header.Packing.{packet}
use kcpev.Conn.{command_shake_hand1, key_size, Trace, Env, HasStack, World}
use kcpev.Send.{is_kcp_valid}
use kcpev.Send.Choice.{sock_send_command_lem, after_send}
use kcpev.Client.{client_command, client_shake_hand1, on_client_recv}
use kcpev.Client.Data.{on_client_recv-packet}

-- Where a client's UDP can be used and no `send` succeeds, a COMMAND_SHAKE_HAND1 with a key of sixteen
-- bytes gives the result -1, but the client has the new key, and its UDP can still be used, with the
-- kcp object of before.
pub shake_hand1-unsent :
    (e : Env) (w : World) (key pad : List ℕ)
    → HasStack e
    → ((t : Trace) (sock : ℕ) (bytes : List ℕ) → e.send t sock bytes ≡ minus_one)
    → length key ≡ key_size
    → length pad ≡ 3
    → is_kcp_valid w.me ≡ true
    → (w' : World) × (on_client_recv e w (packet command_shake_hand1 pad key) ≡ ok (minus_one, w'))
      × (w'.me.key ≡ key)
      × (is_kcp_valid w'.me ≡ true)
      × (w'.me.udp.kcp ≡ w.me.udp.kcp)
unfolding client_command client_shake_hand1 is_kcp_valid
shake_hand1-unsent e w key pad stack none_sent sized padded valid =
    let keyed : World = record w { me = record (w.me) { key = key } } in
    let (pad', f, p) =
      sock_send_command_lem e stack keyed command_shake_hand1 key (omega arith) w.me.udp.sock in
    let sock : (w.me.udp.sock == 0) ≡ false = ground (arith, valid) in
    let unsent = none_sent w.calls w.me.udp.sock (packet command_shake_hand1 pad' key) in
    let q = on_client_recv-packet e w command_shake_hand1 pad key padded (omega arith) in
    (
      after_send keyed w.me.udp.sock (packet command_shake_hand1 pad' key),
      ground (arith, p, unsent, q, sock),
      refl,
      valid,
      refl,
    )
