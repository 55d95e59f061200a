-- ===== src/Send/Frame.antt =====
-- The sending functions leave the connection alone.
use kcpev.Base.{ℕ, ◌≡◌, List, ℤ, ok, arith}
use kcpev.Conn.{Env, World}
use kcpev.Send.{sock_send_command, kcp_send_command, kcpev_send_command}

module _ (e : Env) (command : ℕ) (msg : List ℕ) (w : World) {w' : World} {ret : ℤ} where
  pub me-sock_send_command :
      (sock : ℕ) → sock_send_command e sock command msg w ≡ ok (ret, w') → w'.me ≡ w.me
  unfolding sock_send_command
  me-sock_send_command sock h = ground arith

  pub me-kcp_send_command : kcp_send_command e command msg w ≡ ok (ret, w') → w'.me ≡ w.me
  unfolding kcp_send_command
  me-kcp_send_command h = ground arith

  pub me-kcpev_send_command : kcpev_send_command e command msg w ≡ ok (ret, w') → w'.me ≡ w.me
  unfolding kcpev_send_command
  me-kcpev_send_command h = ground arith
