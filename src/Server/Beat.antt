-- ===== src/Server/Beat.antt =====
-- The server's heartbeat: the time that it sends and gets back.
use kcpev.Base.{
  ℕ, ◌+◌, ◌/◌, ◌%◌, ◌^◌, ◌<◌, ◌≡◌, refl, sym, ap, ◌∙◌, true, ◌++◌, length, length-append, take,
  drop, take-append, drop-append, bytes_eq, bytes_eq_iff, pos, ok, arith,
}
use kcpev.Header.{be32, of_be32}
use kcpev.Header.Packing.{of_be32-be32}
use kcpev.Conn.{key_size, Env, World}
use kcpev.Send.{is_kcp_valid}
use kcpev.Client.{set_heart}
use kcpev.Server.Recv.{be64, of_be64, heartbeat2_client}

low_be32 :
    (x : ℕ) → of_be32 (x / 2 ^ 24 % 256) (x / 2 ^ 16 % 256) (x / 2 ^ 8 % 256) (x % 256) ≡ x % 2 ^ 32
unfolding of_be32
low_be32 x = omega arith

-- The eight bytes of a 64-bit number read back as that number.
of_be64-be64 : (x : ℕ) → x < 2 ^ 64 → of_be64 (be64 x) ≡ x
unfolding of_be64 be64 be32
of_be64-be64 x h = omega (arith, of_be32-be32 (x / 2 ^ 32) (omega arith), low_be32 x)

length-be64 : (x : ℕ) → length (be64 x) ≡ 8
unfolding be64 be32
length-be64 x = refl

-- For a client whose UDP can be used, with a key of sixteen bytes and a 64-bit time of its last
-- heartbeat: a heartbeat answer that holds the key and that time as `be64` lays it out sets the time
-- to the present one, changes nothing else, and gives the result 0.
pub heartbeat2_client-echo :
    (e : Env) (w : World)
    → is_kcp_valid w.me ≡ true
    → length w.me.key ≡ key_size
    → w.me.udp.heart < 2 ^ 64
    → heartbeat2_client e (w.me.key ++ be64 w.me.udp.heart) w
      ≡ ok (pos 0, set_heart (e.now w.calls) w)
unfolding heartbeat2_client
heartbeat2_client-echo e w valid sized small =
    let heart = w.me.udp.heart in
    let front = take-append key_size w.me.key (be64 heart) (sym sized) in
    let back = drop-append key_size w.me.key (be64 heart) (sym sized) in
    let same : bytes_eq (take key_size (w.me.key ++ be64 heart)) w.me.key ≡ true =
      (bytes_eq_iff (take key_size (w.me.key ++ be64 heart)) w.me.key).1 front in
    let echoed : of_be64 (drop key_size (w.me.key ++ be64 heart)) ≡ heart =
      ap of_be64 back ∙ of_be64-be64 heart small in
    let long : length (w.me.key ++ be64 heart) ≡ key_size + 8 =
      omega (arith, length-append w.me.key (be64 heart), length-be64 heart, sized) in
    ground (arith, valid, long, same, echoed)
