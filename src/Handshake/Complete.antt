-- ===== src/Handshake/Complete.antt =====
-- Where the calls of both sides succeed, a first handshake ends with UDP usable on both.
use kcpev.Base.{
  pos, ℕ, ◌<◌, ◌≡◌, refl, sym, ap, ◌∙◌, ◌==◌, true, false, none, some, List, ◌∷◌, length, ok, arith,
}
use kcpev.Header.Packing.{packet, length-packet}
use kcpev.Conn.{
  command_shake_hand1, command_shake_hand2, udp_shaking_hand, key_size, receives, sends, Kcp, Kcpev,
  Trace, Env, World, conv_of, is_some,
}
use kcpev.Send.{is_usable, is_kcp_valid}
use kcpev.Send.Choice.{after_send}
use kcpev.Client.{set_status, on_client_recv}
use kcpev.Server.Callbacks.{server_udp_recv_all}
use kcpev.Client.Shake.{Succeeds, begins_handshake, ends_handshake}
use kcpev.Setup.Open.{Opens}
use kcpev.Server.State.{Server, load, hash_find, logs_to}
use kcpev.Server.Heap.{load_at-store, hash_find-store}
use kcpev.Server.Shake.{updated, answers_handshake, accepts_handshake}
use kcpev.Handshake.{Completes}
use kcpev.Handshake.Datagrams.{
  client_udp_recv-unready, server_udp_recv_all-packet, server_udp_recv-unready,
}

-- The answers of the server's machine.
pub record Serves (e : Env) : Type 0 where
  pub succeeds : Succeeds e
  pub opens : Opens e
  pub names : (t : Trace) → e.getnameinfo t ≡ true
  pub peers : (t : Trace) → e.getpeername t ≡ true

shaking-unready : (c : Kcpev) → c.udp.status ≡ udp_shaking_hand → is_kcp_valid c ≡ false
unfolding is_kcp_valid is_usable
shaking-unready c h = ground (arith, h)

-- The client behind its first datagram.
abbrev shaken : World → List ℕ → List ℕ → World
shaken w key datagram =
    set_status udp_shaking_hand
      (after_send (record w { me = record (w.me) { key = key } }) w.me.udp.sock datagram)

long : (command : ℕ) (p key : List ℕ) → length p ≡ 3 → 0 < length (packet command p key)
long command p key f = omega (arith, length-packet command p key f)

-- The first half of a handshake: the client begins, the server answers.
record Answered (ec es : Env) (key pad : List ℕ) (a : ℕ) (w : World) (s : Server) : Type 0 where
  to_port : List ℕ
  pad2 : List ℕ
  padded : length pad2 ≡ 3
  begins :
      on_client_recv ec w (packet command_shake_hand1 pad key) ≡ ok (pos 0, shaken w key to_port)
  peer : World
  answered : Server
  answers : server_udp_recv_all es to_port s ≡ ok answered
  finds : hash_find answered.heap answered.hash key ≡ ok (some a)
  there : load a answered.heap ≡ some peer.me
  before : Trace
  sent : answered.calls ≡ sends peer.me.udp.sock (packet command_shake_hand2 pad2 key) ∷ before
  has_key : peer.me.key ≡ key
  shaking : peer.me.udp.status ≡ udp_shaking_hand
  sock : (peer.me.udp.sock == 0) ≡ false
  no_timer : peer.me.udp.evt ≡ none
  kcp : peer.me.udp.kcp ≡ some (record { conv = conv_of key; output = true })

first_half :
    (ec es : Env) (key pad : List ℕ) (a : ℕ) (w : World) (s : Server) (c : Kcpev)
    → Succeeds ec
    → Serves es
    → length key ≡ key_size
    → length pad ≡ 3
    → (w.me.udp.sock == 0) ≡ false
    → hash_find s.heap s.hash key ≡ ok (some a)
    → load a s.heap ≡ some c
    → c.key ≡ key
    → c.udp.evt ≡ none
    → Answered ec es key pad a w s
first_half ec es key pad a w s c client server sized padded sock found there has_key free =
    let (p1, f1, q1) = begins_handshake ec client key sized w sock pad padded in
    let to_port = packet command_shake_hand1 p1 key in
    let s0 = logs_to (receives s.base.self to_port) s in
    let (p2, f2, u1, q2, before, calls, key1, shaking, has, timer, made) =
      answers_handshake es server.succeeds server.opens s0 key a c sized server.names found there
        has_key none p1 f1 in
    record {
      to_port = to_port;
      pad2 = p2;
      padded = f2;
      begins = q1;
      peer = u1;
      answered = updated a u1 s0;
      answers =
          server_udp_recv_all-packet es to_port s (updated a u1 s0)
            (long command_shake_hand1 p1 key f1) q2;
      finds = hash_find-store a c u1.me s.heap s.hash key there (key1 ∙ sym has_key) ∙ found;
      there = load_at-store a c u1.me s.heap there;
      before = before;
      sent = calls;
      has_key = key1;
      shaking = shaking;
      sock = has;
      no_timer = timer ∙ free;
      kcp = made;
    }

-- A handshake completes: where the server's table leads the key to a client that has no timer yet, and
-- the client has a UDP socket, a kcp object and no timer, and the calls of both sides succeed, then the
-- packet with the key, the datagram to the server's port, its answer and the confirmation, each as the
-- other side has sent it, leave UDP usable on both sides, with kcp objects of the same number.
pub handshake-Completes :
    (ec es : Env) (fuel : ℕ) (key pad : List ℕ) (a : ℕ) (w : World) (k : Kcp) (s : Server)
    (c : Kcpev)
    → Succeeds ec
    → Serves es
    → length key ≡ key_size
    → length pad ≡ 3
    → (w.me.udp.sock == 0) ≡ false
    → w.me.udp.evt ≡ none
    → w.me.udp.kcp ≡ some k
    → hash_find s.heap s.hash key ≡ ok (some a)
    → load a s.heap ≡ some c
    → c.key ≡ key
    → c.udp.evt ≡ none
    → Completes ec es fuel key pad a w s
handshake-Completes ec es fuel key pad a w k s c client server sized padded sock no_timer kcp found
      there has_key free =
    let h =
      first_half ec es key pad a w s c client server sized padded sock found there has_key free in
    let answer = packet command_shake_hand2 h.pad2 key in
    let begun = shaken w key h.to_port in
    let (p3, f3, ready, q3, later, calls3, status3, valid, kcp3) =
      ends_handshake ec client key sized begun sock h.pad2 h.padded k refl refl no_timer kcp in
    let confirmation = packet command_shake_hand2 p3 key in
    let s2 = logs_to (receives a confirmation) h.answered in
    let (u2, q4, status4, valid4, kcp4) =
      accepts_handshake es server.succeeds server.opens s2 key a h.peer.me sized server.names
        h.finds h.there h.has_key (some a) p3 f3 h.shaking h.no_timer h.sock (ap is_some h.kcp) in
    record {
      begun = begun;
      to_port = h.to_port;
      begins = h.begins;
      sent_first = (w.calls, refl);
      answered = h.answered;
      answer = answer;
      answers = h.answers;
      sent_answer = (h.peer.me, h.before, h.there, h.sent);
      ready = ready;
      confirmation = confirmation;
      gets_ready =
          client_udp_recv-unready ec fuel answer begun ready
            (long command_shake_hand2 h.pad2 key h.padded) (shaking-unready begun.me refl) q3;
      sent_confirmation = (later, calls3);
      accepted = updated a u2 s2;
      accepts =
          server_udp_recv-unready es fuel a h.peer.me confirmation h.answered (updated a u2 s2)
            (long command_shake_hand2 p3 key f3) server.peers h.there
            (shaking-unready h.peer.me h.shaking) q4;
      client_valid = valid;
      server_valid = (
        u2.me,
        record k { conv = conv_of key },
        record { conv = conv_of key; output = true },
        load_at-store a h.peer.me u2.me h.answered.heap h.there,
        valid4,
        kcp3,
        kcp4 ∙ h.kcp,
        refl,
      );
    }
