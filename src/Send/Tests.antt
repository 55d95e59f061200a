-- ===== src/Send/Tests.antt =====
-- The sending functions for a client with and without a usable UDP side.
use kcpev.Base.{ℕ, ◌≡◌, List, [], ◌∷◌, length, zeros, length-zeros, pos, ok, arith}
use kcpev.Header.{buffer_size}
use kcpev.Header.Packing.{packet}
use kcpev.Conn.{Env, HasStack, World}
use kcpev.Conn.Sample.{sample_env, ready_client}
use kcpev.Send.{is_usable, is_kcp_valid, kcpev_send_command}
use kcpev.Send.Choice.{after_kcp_send, kcpev_send_command_lem}

abbrev env : Env
env = record (sample_env (zeros buffer_size)) { send = λ t sock bytes. pos 9 }

env-HasStack : HasStack env
env-HasStack t = length-zeros buffer_size

abbrev world : World
world = record { me = ready_client; calls = [] }

kcpev_send_command_lem_example :
    (pad : List ℕ) × (length pad ≡ 3)
    × (kcpev_send_command env 1 (42 ∷ []) world
        ≡ ok (pos 0, after_kcp_send world (packet 1 pad (42 ∷ []))))
unfolding is_usable is_kcp_valid
kcpev_send_command_lem_example =
    kcpev_send_command_lem env env-HasStack world 1 (42 ∷ []) (omega arith)
