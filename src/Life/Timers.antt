-- ===== src/Life/Timers.antt =====
-- What `check_create_kcp_timer` leaves.
use kcpev.Base.{
  ◌⊎◌, Bool-cases, inl, inr, ℕ, ◌≡◌, true, false, none, some, [], ◌∷◌, ◌++◌, ℤ, pos, minus_one,
  refl, is_nonneg, ok, arith,
}
use kcpev.Conn.{TimerCb, Kcpev, timer_starts, allocates, Trace, Env, World, is_some}
use kcpev.Life.{set_udp, kcp_timer, heartbeat_timer, check_create_kcp_timer}

-- The parts of a connection that the timers leave alone.
pub record SameBut (c c' : Kcpev) : Type 0 where
  pub tcp : c'.tcp ≡ c.tcp
  pub evio : c'.udp.evio ≡ c.udp.evio
  pub sock : c'.udp.sock ≡ c.udp.sock
  pub kcp : c'.udp.kcp ≡ c.udp.kcp
  pub status : c'.udp.status ≡ c.udp.status
  pub key : c'.key ≡ c.key

-- A call of `check_create_kcp_timer` that returns leaves the UDP socket, the kcp object, the status and
-- the key alone; with the result 0 it found no kcp timer and leaves one, with -1 the kcp timer is what
-- it was.
pub check_create_kcp_timer_lem :
    (e : Env) (hcb : TimerCb) (w w' : World) (ret : ℤ)
    → check_create_kcp_timer e hcb w ≡ ok (ret, w')
    → SameBut w.me w'.me
      × (is_nonneg ret ≡ true → (w.me.udp.evt ≡ none) × (is_some w'.me.udp.evt ≡ true))
      × (is_nonneg ret ≡ false → w'.me.udp.evt ≡ w.me.udp.evt)
unfolding check_create_kcp_timer
check_create_kcp_timer_lem e hcb w w' ret h = (ground arith, λ g. ground arith, λ g. ground arith)

-- With the result 0 there is a heartbeat timer; with -1 it is what it was, or there is none at all.
pub check_create_kcp_timer-evh :
    (e : Env) (hcb : TimerCb) (w w' : World) (ret : ℤ)
    → check_create_kcp_timer e hcb w ≡ ok (ret, w')
    → (is_nonneg ret ≡ true → is_some w'.me.udp.evh ≡ true)
      × (is_nonneg ret ≡ false
          → (w'.me.udp.evh ≡ w.me.udp.evh) ⊎ ((w'.me.udp.evt ≡ none) × (w'.me.udp.evh ≡ none)))
unfolding check_create_kcp_timer
check_create_kcp_timer-evh e hcb w w' ret h = (
  λ good. ground arith,
  λ bad. elim (Bool-cases (is_some w.me.udp.evt)) [
    | inl timed ↦ inl (ground (arith, timed))
    | inr untimed ↦ inr (ground (arith, untimed, bad), ground (arith, untimed, bad))
  ],
)

-- The connection with both of its timers, and the calls that made them.
abbrev pub timer_calls : TimerCb → (self : ℕ) → Trace
timer_calls hcb self =
    timer_starts self (heartbeat_timer hcb)
    ∷ allocates self
    ∷ timer_starts self kcp_timer
    ∷ allocates self
    ∷ []

abbrev pub with_timers : Env → TimerCb → World → World
with_timers e hcb w =
    let t = timer_calls hcb w.me.self ++ w.calls in
    record (set_udp w (record (w.me.udp) {
      evt = some kcp_timer;
      evh = some (heartbeat_timer hcb);
      heart = e.now t;
    })) { calls = t }

pub check_create_kcp_timer-made :
    (e : Env) (hcb : TimerCb) (w : World)
    → ((t : Trace) → e.calloc t ≡ true)
    → w.me.udp.evt ≡ none
    → check_create_kcp_timer e hcb w ≡ ok (pos 0, with_timers e hcb w)
unfolding check_create_kcp_timer
check_create_kcp_timer-made e hcb w memory no_timer = ground (
  arith,
  memory w.calls,
  memory (timer_starts w.me.self kcp_timer ∷ allocates w.me.self ∷ w.calls),
)

-- Timers are not made twice.
pub check_create_kcp_timer-twice :
    (e : Env) (hcb : TimerCb) (w : World)
    → is_some w.me.udp.evt ≡ true
    → check_create_kcp_timer e hcb w ≡ ok (minus_one, w)
unfolding check_create_kcp_timer
check_create_kcp_timer-twice e hcb w has = rw (has, check_create_kcp_timer) refl
