-- ===== src/Uuid.antt =====
-- The text of a key, in src/myuuid.c, as Windows has it.
use kcpev.Base.{
  ℕ, ◌+◌, ◌*◌, ◌/◌, ◌%◌, ◌^◌, ◌<◌, ◌≡◌, refl, ap, ap₂, ◌∙◌, List, [], ◌∷◌, ◌++◌, ltb, if◌then◌else◌,
  take, drop, arith,
}
use kcpev.Conn.{byte_at}
mod Tests

-- `struct uuid`
record Uuid : Type 0 where
  time_low : ℕ
  time_mid : ℕ
  time_hi_and_version : ℕ
  clock_seq : ℕ
  node : List ℕ

-- `tmp = (tmp << 8) | *ptr++` on a `uint32_t`: the low byte is free for the new one.
shift_in : ℕ → ℕ → ℕ
shift_in tmp b = (tmp * 256 + b) % 2 ^ 32

uuid_unpack : List ℕ → Uuid
unfolding shift_in
uuid_unpack p = record {
  time_low = shift_in (shift_in (shift_in (byte_at 0 p) (byte_at 1 p)) (byte_at 2 p)) (byte_at 3 p);
  time_mid = shift_in (byte_at 4 p) (byte_at 5 p) % 2 ^ 16;
  time_hi_and_version = shift_in (byte_at 6 p) (byte_at 7 p) % 2 ^ 16;
  clock_seq = shift_in (byte_at 8 p) (byte_at 9 p) % 2 ^ 16;
  node = take 6 (drop 10 p);
}

-- A digit of `%x`, and `%02x`, `%04x` and `%08x` of numbers of that many digits.
digit : ℕ → ℕ
digit d = if ltb d 10 then 48 + d else 87 + d

hex2 : ℕ → List ℕ
unfolding digit
hex2 x = digit (x / 16 % 16) ∷ digit (x % 16) ∷ []

hex4 : ℕ → List ℕ
unfolding hex2
hex4 x = hex2 (x / 2 ^ 8) ++ hex2 x

hex8 : ℕ → List ℕ
unfolding hex4
hex8 x = hex4 (x / 2 ^ 16) ++ hex4 x

-- `uuid_unparse_x` with `fmt_lower`, which is the default.
pub uuid_unparse : List ℕ → List ℕ
unfolding uuid_unpack hex2 hex4 hex8
uuid_unparse p =
    let u = uuid_unpack p in
    hex8 u.time_low
    ++ 45 ∷ hex4 u.time_mid
    ++ 45 ∷ hex4 u.time_hi_and_version
    ++ 45 ∷ hex2 (u.clock_seq / 2 ^ 8)
    ++ hex2 (u.clock_seq % 2 ^ 8)
    ++ 45 ∷ hex2 (byte_at 0 u.node)
    ++ hex2 (byte_at 1 u.node)
    ++ hex2 (byte_at 2 u.node)
    ++ hex2 (byte_at 3 u.node)
    ++ hex2 (byte_at 4 u.node)
    ++ hex2 (byte_at 5 u.node)

-- A number prints as its last two digits.
hex2-mod : (x y : ℕ) → x % 256 ≡ y % 256 → hex2 x ≡ hex2 y
unfolding hex2
hex2-mod x y h =
    let high : x / 16 % 16 ≡ y / 16 % 16 = omega (arith, h) in
    let low : x % 16 ≡ y % 16 = omega (arith, h) in ap₂ (λ a b. digit a ∷ digit b ∷ []) high low

hex4-bytes : (x a b : ℕ) → x % 2 ^ 16 ≡ a * 256 + b → a < 256 → b < 256 → hex4 x ≡ hex2 a ++ hex2 b
unfolding hex4
hex4-bytes x a b e h k =
    ap₂ (λ s t. s ++ t) (hex2-mod (x / 2 ^ 8) a (omega (arith, e)))
      (hex2-mod x b (omega (arith, e)))

hex8-bytes :
    (x a b c d : ℕ)
    → x ≡ a * 2 ^ 24 + b * 2 ^ 16 + c * 2 ^ 8 + d
    → a < 256
    → b < 256
    → c < 256
    → d < 256
    → hex8 x ≡ (hex2 a ++ hex2 b) ++ (hex2 c ++ hex2 d)
unfolding hex8
hex8-bytes x a b c d e h i j k =
    ap₂ (λ s t. s ++ t) (hex4-bytes (x / 2 ^ 16) a b (omega (arith, e)) h i)
      (hex4-bytes x c d (omega (arith, e)) j k)

abbrev pub AllBytes : List ℕ → Type 0
AllBytes [] = Unit {0}
AllBytes (b ∷ bs) = (b < 256) × AllBytes bs

pub hex_bytes : List ℕ → List ℕ
unfolding hex2
hex_bytes [] = []
hex_bytes (b ∷ bs) = hex2 b ++ hex_bytes bs

abbrev dashed : List ℕ → List ℕ → List ℕ → List ℕ → List ℕ → List ℕ → List ℕ
dashed s t u v w rest = s ++ 45 ∷ t ++ 45 ∷ u ++ 45 ∷ v ++ w ++ 45 ∷ rest

-- The text of a key is the two digits of each of its sixteen bytes, in order, in groups of 4, 2, 2, 2
-- and 6 bytes with dashes between them.
pub uuid_unparse-hex_bytes :
    (a b c d e f g h i j k l m n o p : ℕ)
    → AllBytes (a ∷ b ∷ c ∷ d ∷ e ∷ f ∷ g ∷ h ∷ i ∷ j ∷ k ∷ l ∷ m ∷ n ∷ o ∷ p ∷ [])
    → uuid_unparse (a ∷ b ∷ c ∷ d ∷ e ∷ f ∷ g ∷ h ∷ i ∷ j ∷ k ∷ l ∷ m ∷ n ∷ o ∷ p ∷ [])
      ≡ hex_bytes (a ∷ b ∷ c ∷ d ∷ [])
        ++ 45 ∷ hex_bytes (e ∷ f ∷ [])
        ++ 45 ∷ hex_bytes (g ∷ h ∷ [])
        ++ 45 ∷ hex_bytes (i ∷ j ∷ [])
        ++ 45 ∷ hex_bytes (k ∷ l ∷ m ∷ n ∷ o ∷ p ∷ [])
unfolding uuid_unparse uuid_unpack shift_in hex_bytes hex2
uuid_unparse-hex_bytes a b c d e f g h i j k l m n o p
      (p0, (p1, (p2, (p3, (p4, (p5, (p6, (p7, (p8, (p9, q)))))))))) =
    let rest = hex_bytes (k ∷ l ∷ m ∷ n ∷ o ∷ p ∷ []) in
    let low = shift_in (shift_in (shift_in a b) c) d in
    let s = hex8-bytes low a b c d (omega arith) p0 p1 p2 p3 in
    let t = hex4-bytes (shift_in e f % 2 ^ 16) e f (omega arith) p4 p5 in
    let u = hex4-bytes (shift_in g h % 2 ^ 16) g h (omega arith) p6 p7 in
    let v = hex2-mod (shift_in i j % 2 ^ 16 / 2 ^ 8) i (omega arith) in
    let w = hex2-mod (shift_in i j % 2 ^ 16 % 2 ^ 8) j (omega arith) in
    ap₂
      (λ x y.
        dashed x y (hex4 (shift_in g h % 2 ^ 16)) (hex2 (shift_in i j % 2 ^ 16 / 2 ^ 8))
          (hex2 (shift_in i j % 2 ^ 16 % 2 ^ 8)) rest)
      s t
    ∙ ap
        (λ x.
          dashed ((hex2 a ++ hex2 b) ++ (hex2 c ++ hex2 d)) (hex2 e ++ hex2 f) x
            (hex2 (shift_in i j % 2 ^ 16 / 2 ^ 8)) (hex2 (shift_in i j % 2 ^ 16 % 2 ^ 8)) rest)
        u
    ∙ ap₂
        (λ x y.
          dashed ((hex2 a ++ hex2 b) ++ (hex2 c ++ hex2 d)) (hex2 e ++ hex2 f) (hex2 g ++ hex2 h) x
            y rest)
        v w
