-- ===== src/Client/Packets.antt =====
-- What every command of the client keeps, `on_client_recv` keeps.
use kcpev.Base.{ℕ, ◌≡◌, ◌==◌, Option, none, some, List, length, drop, leb, ℤ, ok}
use kcpev.Header.{Header, header_size, header_from_net}
use kcpev.Conn.{Env, World, Body, ◌>>◌, check, fail}
use kcpev.Conn.Keeps.{IsPreorder, Keeps, Keeps-bind, Keeps-check, Keeps-fail, returns_code-Keeps}
use kcpev.Client.{client_command, on_client_recv}

module _ (e : Env) (R : World → World → Type 0) (order : IsPreorder R)
    (keeps : (command : ℕ) (msg : List ℕ) → Keeps R (client_command e command msg)) where
  taken_apart : List ℕ → Option Header → Body World (Unit {0})
  taken_apart packet h = elim h [
    | none ↦ fail
    | some h ↦ do
      check (h.size == length packet)
      client_command e h.command (drop header_size packet)
  ]

  found : (packet : List ℕ) (h : Option Header) → Keeps R (taken_apart packet h)
  unfolding taken_apart
  found packet none = Keeps-fail order
  found packet (some h) =
      Keeps-bind order (check (h.size == length packet))
        (λ _. client_command e h.command (drop header_size packet))
        (Keeps-check order (h.size == length packet))
        (λ _. keeps h.command (drop header_size packet))

  pub on_client_recv-kept :
      (w w' : World) (packet : List ℕ) (ret : ℤ) → on_client_recv e w packet ≡ ok (ret, w') → R w w'
  unfolding on_client_recv taken_apart
  on_client_recv-kept w w' packet ret h =
      returns_code-Keeps R w w'
        (check (leb header_size (length packet)) >> taken_apart packet (header_from_net packet)) ret
        (Keeps-bind order (check (leb header_size (length packet)))
          (λ _. taken_apart packet (header_from_net packet))
          (Keeps-check order (leb header_size (length packet)))
          (λ _. found packet (header_from_net packet)))
        h
