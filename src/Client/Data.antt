-- ===== src/Client/Data.antt =====
-- A packet of a message at the client's handler.
use kcpev.Base.{
  ℕ, ◌+◌, ◌^◌, ◌<◌, ◌≡◌, sym, ap, ◌∙◌, true, some, List, [], ◌∷◌, append-nil, length, pos, ok,
  arith,
}
use kcpev.Header.{header_size, header_from_net}
use kcpev.Header.Packing.{packet, length-packet, drop-packet, header_from_net-packet}
use kcpev.Conn.{command_data, delivers, Env, World, returns_code}
use kcpev.Client.{client_data, client_command, on_client_recv}

pub header_from_net-alone :
    (command : ℕ) (pad msg : List ℕ)
    → length pad ≡ 3
    → length msg + header_size < 2 ^ 32
    → header_from_net (packet command pad msg)
      ≡ some (record { size = length msg + header_size; command = command })
header_from_net-alone command pad msg f h =
    ap header_from_net (sym (append-nil (packet command pad msg)))
    ∙ header_from_net-packet command pad msg [] f h

pub on_client_recv-data :
    (e : Env) (w : World) (pad msg : List ℕ)
    → w.me.recv_cb ≡ true
    → length pad ≡ 3
    → length msg + header_size < 2 ^ 32
    → on_client_recv e w (packet command_data pad msg)
      ≡ ok (pos 0, record w { calls = delivers w.me.self msg ∷ w.calls })
unfolding on_client_recv client_command client_data
on_client_recv-data e w pad msg cb f h = ground (
  arith,
  header_from_net-alone command_data pad msg f h,
  length-packet command_data pad msg f,
  drop-packet command_data pad msg f,
)

-- A packet goes to the case of its command.
pub on_client_recv-packet :
    (e : Env) (w : World) (command : ℕ) (pad msg : List ℕ)
    → length pad ≡ 3
    → length msg + header_size < 2 ^ 32
    → on_client_recv e w (packet command pad msg) ≡ returns_code (client_command e command msg) w
unfolding on_client_recv
on_client_recv-packet e w command pad msg f h = ground (
  arith,
  header_from_net-alone command pad msg f h,
  length-packet command pad msg f,
  drop-packet command pad msg f,
)
