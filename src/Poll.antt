-- ===== src/Poll.antt =====
-- The polling of kcp in src/kcpev.c: `try_kcp_recv`, `kcpev_timer_repeat` and `kcpev_on_timer`.
pub mod Bounds
pub mod Preserve
mod Tests
use kcpev.Base.{
  ◌≡◌, ◌==◌, refl, Bool-cases, inl, inr, arith, ℕ, zero, suc, ◌-◌, ◌%◌, ◌^◌, Bool, true, false,
  Option, none, some, List, [], ◌∷◌, leb, ltb, if◌then◌else◌, length, ℤ, pos, minus_one, int_eq,
  Run, ok, fault,
}
use kcpev.Header.{buffer_size}
use kcpev.Conn.{
  is_some, EvTimer, Kcpev, KcpevUdp, Call, kcp_receives, Trace, kcp_checks, kcp_updates,
  timer_agains, Env, World,
}
use kcpev.Life.{set_udp}

-- Over a state of the caller's, with its calls and the address of the connection; `handle` is
-- `on_client_recv`, or `on_server_recv` behind `getpeername`. The loop ends when kcp has no message;
-- `fuel` bounds its rounds. A message that is larger than `buf` is refused by `ikcp_recv`, which leaves
-- it where it is; `buf[len] = '\0'` writes behind one that fills `buf`.
module _ {S : Type 0} (trace_of : S → Trace) (log : Call → S → S) (self : ℕ)
    (handle : S → List ℕ → Run (ℤ × S)) where
  unfoldable pub try_kcp_recv : Env → (fuel : ℕ) → (result : ℤ) → S → Run (ℤ × S)
  try_kcp_recv e zero result s = fault
  try_kcp_recv e (suc fuel) result s = elim (e.kcp_recv (trace_of s) self) [
    | [] ↦ ok (result, log (kcp_receives self) s)
    | x ∷ xs ↦ elim (ltb (length (x ∷ xs)) buffer_size) [
      | false ↦
          if length (x ∷ xs) == buffer_size then fault else ok (result, log (kcp_receives self) s)
      | true ↦ elim (handle (log (kcp_receives self) s) (x ∷ xs)) [
        | fault ↦ fault
        | ok (ret, s') ↦ elim (int_eq ret (pos 0)) [
          | true ↦ try_kcp_recv e fuel ret s'
          | false ↦ ok (ret, s')
        ]
      ]
    ]
  ]

-- `next <= now`: after 0.01 s; otherwise after the difference in milliseconds.
unfoldable pub repeat_after : (now following : ℕ) → ℕ
repeat_after now following = if leb following now then 10 else following - now

-- The connection is the timer's `data`.
unfoldable pub kcpev_timer_repeat : Env → World → Run World
kcpev_timer_repeat e w =
    let self = w.me.self in
    let now = e.millis (e.now w.calls) % 2 ^ 32 in
    let t = kcp_checks self now ∷ w.calls in
    let first = e.kcp_check w.calls self now in
    let t' = if leb first now then kcp_checks self now ∷ kcp_updates self now ∷ t else t in
    let following =
      if leb first now then e.kcp_check (kcp_updates self now ∷ t) self now else first in
    elim w.me.udp.kcp [
      | none ↦ ok w
      | some _ ↦ elim w.me.udp.evt [
        | none ↦ fault
        | some timer ↦
            let timer' = record timer { repeat_ms = repeat_after now following } in
            ok (record (set_udp w (record (w.me.udp) { evt = some timer' })) {
              calls = timer_agains self timer' ∷ t';
            })
      ]
    ]

-- `kcpev_timer_repeat` before a poll: `ikcp_recv` asserts that there is a kcp object.
unfoldable pub timer_with_kcp : Env → World → Run World
timer_with_kcp e w = elim (kcpev_timer_repeat e w) [
  | fault ↦ fault
  | ok w' ↦ if is_some w'.me.udp.kcp then ok w' else fault
]

pub timer_with_kcp-returns :
    (e : Env) (w w' : World) → timer_with_kcp e w ≡ ok w' → kcpev_timer_repeat e w ≡ ok w'
unfolding timer_with_kcp
timer_with_kcp-returns e w w' h = returned (kcpev_timer_repeat e w) refl
  where
    returned : (m : Run World) → kcpev_timer_repeat e w ≡ m → kcpev_timer_repeat e w ≡ ok w'
    returned fault g = absurd (ground (arith, g))
    returned (ok w1) g = elim (Bool-cases (is_some w1.me.udp.kcp)) [
      | inl there ↦ let same : w1 ≡ w' = ground (arith, g, there) in ground (arith, g, same)
      | inr gone ↦ absurd (ground (arith, g, gone))
    ]
