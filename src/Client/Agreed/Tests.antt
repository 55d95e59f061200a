-- ===== src/Client/Agreed/Tests.antt =====
-- A client that is ready, and cannot send any more.
use kcpev.Base.{ℕ, ◌≡◌, refl, true, List, [], ◌∷◌, zeros, length-zeros, minus_one, ok}
use kcpev.Header.{buffer_size}
use kcpev.Header.Packing.{packet}
use kcpev.Conn.{command_shake_hand1, Env, World}
use kcpev.Conn.Sample.{sample_env, ready_client}
use kcpev.Send.{is_usable, is_kcp_valid}
use kcpev.Client.{on_client_recv}
use kcpev.Client.Agreed.Unsent.{shake_hand1-unsent}

abbrev env : Env
env = record (sample_env (zeros buffer_size)) { send = λ t sock bytes. minus_one }

abbrev ready : World
ready = record { me = ready_client; calls = [] }

abbrev new_key : List ℕ
new_key = 9 ∷ 9 ∷ 9 ∷ 9 ∷ 9 ∷ 9 ∷ 9 ∷ 9 ∷ 9 ∷ 9 ∷ 9 ∷ 9 ∷ 9 ∷ 9 ∷ 9 ∷ 9 ∷ []

ready-valid : is_kcp_valid ready.me ≡ true
unfolding is_kcp_valid is_usable
ready-valid = refl

shake_hand1-unsent_example :
    (w' : World) × (on_client_recv env ready (packet command_shake_hand1 (0 ∷ 0 ∷ 0 ∷ []) new_key)
      ≡ ok (minus_one, w'))
    × (w'.me.key ≡ new_key)
    × (is_kcp_valid w'.me ≡ true)
    × (w'.me.udp.kcp ≡ ready.me.udp.kcp)
shake_hand1-unsent_example =
    shake_hand1-unsent env ready new_key (0 ∷ 0 ∷ 0 ∷ []) (λ t. length-zeros buffer_size)
      (λ t sock bytes. refl) refl refl ready-valid
