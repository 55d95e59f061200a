-- ===== src/Handshake/Tests.antt =====
-- A client and a server on one sample network.
use kcpev.Base.{◌≡◌, refl, true, some, [], ◌∷◌, bytes_eq, zeros, length-zeros, ok}
use kcpev.Header.{buffer_size}
use kcpev.Conn.{udp_invalid, Kcpev, Env, World}
use kcpev.Conn.Sample.{sample_env, sample_key, sample_client}
use kcpev.Setup.Open.{Opens}
use kcpev.Client.Shake.{Succeeds}
use kcpev.Server.State.{Server, load, hash_find}
use kcpev.Handshake.{Completes}
use kcpev.Handshake.Complete.{Serves, handshake-Completes}

abbrev env : Env
env = sample_env (zeros buffer_size)

env-Succeeds : Succeeds env
env-Succeeds = record {
  stack = λ t. length-zeros buffer_size;
  sends_all = λ t sock bytes. refl;
  memory = λ t. refl;
}

env-Opens : Opens env
env-Opens = record {
  addresses = λ t. (1, [], refl);
  sockets = λ t. refl;
  positive = λ t. refl;
  options = λ t. refl;
  binds_all = λ t sock. refl;
  connects_all = λ t sock. refl;
  memory = λ t. refl;
  kcps = λ t. refl;
}

env-Serves : Serves env
env-Serves = record {
  succeeds = env-Succeeds;
  opens = env-Opens;
  names = λ t. refl;
  peers = λ t. refl;
}

abbrev peer : Kcpev
peer = record (sample_client udp_invalid) { has_server = true }

abbrev server : Server
server = record {
  base = record (sample_client udp_invalid) { self = 1 };
  recv_cb = true;
  port = 56 ∷ 48 ∷ [];
  hash = 7 ∷ [];
  heap = (7, peer) ∷ [];
  calls = [];
}

-- A client that has no key yet.
abbrev client : World
client = record { me = record (sample_client udp_invalid) { key = [] }; calls = [] }

server-finds : hash_find server.heap server.hash sample_key ≡ ok (some 7)
unfolding hash_find load bytes_eq
server-finds = refl

server-peer : load 7 server.heap ≡ some peer
unfolding load
server-peer = refl

handshake-Completes_example : Completes env env 1 sample_key (0 ∷ 0 ∷ 0 ∷ []) 7 client server
handshake-Completes_example =
    handshake-Completes env env 1 sample_key (0 ∷ 0 ∷ 0 ∷ []) 7 client
      (record { conv = 0; output = true }) server peer env-Succeeds env-Serves refl refl refl refl
      refl server-finds server-peer refl refl
