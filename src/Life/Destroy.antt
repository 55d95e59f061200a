-- ===== src/Life/Destroy.antt =====
-- The release of a connection's parts: each is released once.
use kcpev.Base.{ℕ, ◌+◌, ◌≡◌, refl, ◌==◌, if◌then◌else◌, [], ◌∷◌, arith}
use kcpev.Conn.{Kcpev, is_some, frees_ring, Trace, World}
use kcpev.Life.{
  kcpev_sock_destroy, stop_timer, release_kcp, free_ring, kcpev_tcp_destroy, kcpev_udp_destroy,
  kcpev_destroy,
}
use kcpev.Accounts.{Kind, memory, one, given_back, has}

-- After `kcpev_tcp_destroy` or `kcpev_udp_destroy` a second call of the same changes nothing and makes
-- no call.
pub destroy_twice :
    (w : World)
    → (kcpev_tcp_destroy (kcpev_tcp_destroy w) ≡ kcpev_tcp_destroy w)
      × (kcpev_udp_destroy (kcpev_udp_destroy w) ≡ kcpev_udp_destroy w)
unfolding kcpev_tcp_destroy kcpev_udp_destroy kcpev_sock_destroy free_ring stop_timer release_kcp
destroy_twice w = (refl, refl)

-- The two halves of `kcpev_destroy` give back all that a connection has but its own memory.
pub parts-given_back :
    (w : World) (k : Kind)
    → given_back (World.calls (kcpev_udp_destroy (kcpev_tcp_destroy w))) k
        + one (memory w.me.self) k
      ≡ has w.me k + given_back w.calls k
unfolding kcpev_tcp_destroy kcpev_udp_destroy given_back has
parts-given_back w k = ground arith

-- `kcpev_destroy` gives back exactly what the connection has.
pub kcpev_destroy-given_back :
    (w : World) (k : Kind) → given_back (kcpev_destroy w) k ≡ has w.me k + given_back w.calls k
unfolding kcpev_destroy given_back
kcpev_destroy-given_back w k = omega (arith, parts-given_back w k)

-- How often the ring of the connection at `n` was freed, and whether `c` is there and has one.
unfoldable pub rings_freed : Trace → ℕ → ℕ
rings_freed [] n = 0
rings_freed (frees_ring self ∷ t) n = (if self == n then 1 else 0) + rings_freed t n
rings_freed (_ ∷ t) n = rings_freed t n

unfoldable pub has_ring : Kcpev → ℕ → ℕ
has_ring c n = if is_some c.tcp.rb then (if c.self == n then 1 else 0) else 0

pub parts-rings_freed :
    (w : World) (n : ℕ)
    → rings_freed (World.calls (kcpev_udp_destroy (kcpev_tcp_destroy w))) n
      ≡ has_ring w.me n + rings_freed w.calls n
unfolding kcpev_tcp_destroy kcpev_udp_destroy kcpev_sock_destroy free_ring stop_timer release_kcp
    rings_freed has_ring
parts-rings_freed w n = ground arith

pub kcpev_destroy-rings_freed :
    (w : World) (n : ℕ) → rings_freed (kcpev_destroy w) n ≡ has_ring w.me n + rings_freed w.calls n
unfolding kcpev_destroy rings_freed
kcpev_destroy-rings_freed w n = parts-rings_freed w n
