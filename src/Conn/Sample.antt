-- ===== src/Conn/Sample.antt =====
-- A network and a machine on which every call succeeds, and connections on it, for tests.
use kcpev.Base.{ℕ, true, false, none, some, List, [], ◌∷◌, length, zeros, pos}
use kcpev.Conn.Types.{Kcpev, on_timer, UdpStatus, udp_ready}
use kcpev.Conn.Outside.{Env}

abbrev pub sample_key : List ℕ
sample_key = 1 ∷ 2 ∷ 3 ∷ 4 ∷ 5 ∷ 6 ∷ 7 ∷ 8 ∷ 9 ∷ 10 ∷ 11 ∷ 12 ∷ 13 ∷ 14 ∷ 15 ∷ 16 ∷ []

-- The bytes of a buffer on the stack are a parameter, which may be too few for `HasStack`.
abbrev pub sample_env : List ℕ → Env
sample_env stack = record {
  send = λ t sock bytes. pos (length bytes);
  kcp_send = λ t self bytes. pos 0;
  kcp_recv = λ t self. [];
  kcp_check = λ t self now. now;
  kcp_create = λ t. true;
  calloc = λ t. true;
  getnameinfo = λ t. true;
  getpeername = λ t. true;
  getaddrinfo = λ t. some (1 ∷ []);
  socket = λ t. pos 3;
  setsockopt = λ t. pos 0;
  bind = λ t sock. pos 0;
  connect = λ t sock. pos 0;
  listen = λ t sock. pos 0;
  accept = λ t. pos 9;
  getsockname = λ t. true;
  uuid = λ t. sample_key;
  fresh = λ t. 100;
  malloc = λ t n. some (zeros n);
  stack = λ t. stack;
  now = λ t. 50;
  overdue = λ now heart. false;
  millis = λ now. now;
}

-- A client with both sockets, at one status of its handshake.
abbrev pub sample_client : UdpStatus → Kcpev
sample_client status = record {
  self = 7;
  tcp = record { sock = 4; evio = none; rb = none };
  udp = record {
    sock = 5;
    evio = none;
    evt = none;
    evh = none;
    kcp = some (record { conv = 0; output = true });
    status = status;
    heart = 0;
  };
  key = sample_key;
  has_server = false;
  recv_cb = true;
}

-- A client whose UDP can be used.
abbrev pub ready_client : Kcpev
ready_client = record (sample_client udp_ready) {
  udp = record ((sample_client udp_ready).udp) {
    evt = some (record { cb = on_timer; repeat_ms = 10 });
  };
}
