-- ===== src/Uuid/Tests.antt =====
-- The text of one key.
use kcpev.Base.{◌≡◌, [], ◌∷◌, ◌++◌, arith}
use kcpev.Conn.Sample.{sample_key}
use kcpev.Uuid.{hex_bytes, uuid_unparse, uuid_unparse-hex_bytes}

uuid_unparse-hex_bytes_example :
    uuid_unparse sample_key
    ≡ hex_bytes (1 ∷ 2 ∷ 3 ∷ 4 ∷ [])
      ++ 45 ∷ hex_bytes (5 ∷ 6 ∷ [])
      ++ 45 ∷ hex_bytes (7 ∷ 8 ∷ [])
      ++ 45 ∷ hex_bytes (9 ∷ 10 ∷ [])
      ++ 45 ∷ hex_bytes (11 ∷ 12 ∷ 13 ∷ 14 ∷ 15 ∷ 16 ∷ [])
uuid_unparse-hex_bytes_example = uuid_unparse-hex_bytes 1 2 3 4 5 6 7 8 9 10 11 12 13 14 15 16 (
  omega arith,
  (
    omega arith,
    (
      omega arith,
      (
        omega arith,
        (
          omega arith,
          (
            omega arith,
            (
              omega arith,
              (
                omega arith,
                (
                  omega arith,
                  (
                    omega arith,
                    (
                      omega arith,
                      (omega arith, (omega arith, (omega arith, (omega arith, (omega arith, tt))))),
                    ),
                  ),
                ),
              ),
            ),
          ),
        ),
      ),
    ),
  ),
)
