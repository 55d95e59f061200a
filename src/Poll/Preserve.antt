-- ===== src/Poll/Preserve.antt =====
-- What every packet keeps, the polling loop keeps.
use kcpev.Base.{
  ◌==◌, ℕ, zero, suc, ◌≡◌, refl, subst, inl, inr, Bool-cases, true, List, [], ◌∷◌, length, ltb, ℤ,
  pos, int_eq, Run, ok, fault, arith,
}
use kcpev.Header.{buffer_size}
use kcpev.Conn.{Call, kcp_receives, Trace, Env}
use kcpev.Poll.{try_kcp_recv}

module _ {ℓ} {S : Type 0} (trace_of : S → Trace) (log : Call → S → S) (self : ℕ)
    (handle : S → List ℕ → Run (ℤ × S)) (P : S → Type ℓ)
    (logged : (s : S) → P s → P (log (kcp_receives self) s))
    (keeps : (s s' : S) (packet : List ℕ) (ret : ℤ)
      → P s
      → handle s packet ≡ ok (ret, s')
      → P s') where
  pub try_kcp_recv-keeps :
      (e : Env) (fuel : ℕ) (result ret : ℤ) (s s' : S)
      → P s
      → try_kcp_recv trace_of log self handle e fuel result s ≡ ok (ret, s')
      → P s'
  unfolding try_kcp_recv
  try_kcp_recv-keeps e zero result ret s s' p h = absurd (ground arith)
  try_kcp_recv-keeps e (suc fuel) result ret s s' p h =
      go (λ r s1 p1 g. try_kcp_recv-keeps e fuel r ret s1 s' p1 g) (e.kcp_recv (trace_of s) self)
        refl
    where
      read : S
      read = log (kcp_receives self) s

      handled :
          (rest : (r : ℤ) (s1 : S)
            → P s1
            → try_kcp_recv trace_of log self handle e fuel r s1 ≡ ok (ret, s')
            → P s')
          → (x : ℕ) (xs : List ℕ) → e.kcp_recv (trace_of s) self ≡ x ∷ xs
          → ltb (length (x ∷ xs)) buffer_size ≡ true
          → (m : Run (ℤ × S)) → handle read (x ∷ xs) ≡ m
          → P s'
      handled rest x xs g b fault f = absurd (ground (arith, g, b, f))
      handled rest x xs g b (ok (r, s1)) f =
          let p1 = keeps read s1 (x ∷ xs) r (logged s p) f in
          elim (Bool-cases (int_eq r (pos 0))) [
            | inl accepted ↦ rest r s1 p1 (ground (arith, g, b, f, accepted))
            | inr refused ↦ subst P (ground (arith, g, b, f, refused)) p1
          ]

      go :
          (rest : (r : ℤ) (s1 : S)
            → P s1
            → try_kcp_recv trace_of log self handle e fuel r s1 ≡ ok (ret, s')
            → P s')
          → (m : List ℕ) → e.kcp_recv (trace_of s) self ≡ m
          → P s'
      go rest [] g = subst P (ground (arith, g)) (logged s p)
      go rest (x ∷ xs) g = elim (Bool-cases (ltb (length (x ∷ xs)) buffer_size)) [
        | inl small ↦ handled rest x xs g small (handle read (x ∷ xs)) refl
        | inr big ↦ elim (Bool-cases (length (x ∷ xs) == buffer_size)) [
          | inl full ↦ absurd (ground (arith, g, big, full))
          | inr larger ↦ subst P (ground (arith, g, big, larger)) (logged s p)
        ]
      ]
