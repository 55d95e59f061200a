-- ===== src/Setup/Accounts/Connect.antt =====
-- `kcpev_connect` takes nothing, and gives back what it closes.
use kcpev.Base.{
  ℕ, ◌+◌, ◌≡◌, if◌then◌else◌, List, [], ◌∷◌, ℤ, is_nonneg, inl, inr, Option-cases, ok, arith,
}
use kcpev.Conn.Keeps.{keeps_rules, Keeps-call, Keeps-modify, returns_code-Keeps}
use kcpev.Conn.{connects, get, call, check, pure, modify, ◌>>=◌, ◌>>◌, Trace, Env, World}
use kcpev.Setup.{connect_loop, close_udp, kcpev_connect_socket, kcpev_connect}
use kcpev.Accounts.{
  taken, given_back, has, Conserves, Careful, Careful-of_Conserves, Careful-IsPreorder, Kind,
}

connect_loop-taken :
    (e : Env) (sock : ℕ) (as_ : List ℕ) (t : Trace) (k : Kind)
    → taken e (connect_loop e sock as_ t).1 k + given_back t k
      ≡ taken e t k + given_back (connect_loop e sock as_ t).1 k
unfolding connect_loop taken given_back
connect_loop-taken e sock [] t k = omega arith
connect_loop-taken e sock (a ∷ as_) t k =
    ground (arith, connect_loop-taken e sock as_ (connects sock ∷ t) k)

connect_socket-Conserves :
    (e : Env) (sock : ℕ) (w w' : World) (ret : ℤ)
    → kcpev_connect_socket e sock w ≡ ok (ret, w')
    → Conserves e w w'
unfolding kcpev_connect_socket Conserves
connect_socket-Conserves e sock w w' ret h k = elim (Option-cases (e.getaddrinfo w.calls)) [
  | inl unknown ↦ ground (arith, unknown)
  | inr (as_, found) ↦ ground (arith, found, connect_loop-taken e sock as_ w.calls k)
]

connect_socket-Careful :
    (e : Env) (sock : ℕ) (w w' : World) (ret : ℤ)
    → kcpev_connect_socket e sock w ≡ ok (ret, w')
    → Careful e w w'
unfolding kcpev_connect_socket
connect_socket-Careful e sock w w' ret h =
    Careful-of_Conserves (ground arith) (ground arith) (connect_socket-Conserves e sock w w' ret h)

close_udp-Careful : (e : Env) (w : World) → Careful e w (close_udp w)
unfolding close_udp Conserves has taken given_back
close_udp-Careful e w = Careful-of_Conserves (ground arith) (ground arith) (λ k. ground arith)

-- `kcpev_connect` loses nothing.
pub connect-Careful :
    (e : Env) (w w' : World) (ret : ℤ) → kcpev_connect e w ≡ ok (ret, w') → Careful e w w'
unfolding kcpev_connect
connect-Careful e w w' ret h =
    returns_code-Keeps (Careful e) w w'
      (do
        w ← get
        ret ← call (kcpev_connect_socket e w.me.tcp.sock)
        check (is_nonneg ret)
        ret' ← call (kcpev_connect_socket e w.me.udp.sock)
        if is_nonneg ret' then pure tt else modify close_udp)
      ret
      (search
        (
          keeps_rules,
          Careful-IsPreorder e,
          Keeps-call,
          connect_socket-Careful,
          Keeps-modify,
          close_udp-Careful,
        )
        depth 20)
      h
