-- ===== src/Stream/Preserve.antt =====
-- What every packet keeps, the TCP handlers keep.
use kcpev.Base.{
  ℕ, zero, suc, ◌+◌, ◌≡◌, refl, subst, inl, inr, Bool-cases, true, Option, List, [], ◌∷◌, take, ℤ,
  pos, int_eq, is_positive, to_int, Run, ok, fault, arith,
}
use kcpev.Ringbuf.{Ringbuf}
use kcpev.Header.{buffer_size}
use kcpev.Stream.{on_tcp_recv, get_tcp_buf_chunk, pending, chunk_loop, tcp_recv}

module _ {ℓ} {S : Type 0} (handle : S → List ℕ → Run (ℤ × S)) (P : S → Type ℓ)
    (keeps : (s s' : S) (packet : List ℕ) (ret : ℤ)
      → P s
      → handle s packet ≡ ok (ret, s')
      → P s') where
  chunk_loop-keeps :
      (fuel : ℕ) (rb rb' : Option Ringbuf) (s s' : S) (ret : ℤ)
      → P s
      → chunk_loop handle fuel rb s ≡ ok (ret, rb', s')
      → P s'
  unfolding chunk_loop
  chunk_loop-keeps zero rb rb' s s' ret p h = absurd (ground arith)
  chunk_loop-keeps (suc fuel) rb rb' s s' ret p h =
      got (λ rb1 s1 p1 g. chunk_loop-keeps fuel rb1 rb' s1 s' ret p1 g)
        (get_tcp_buf_chunk buffer_size rb) refl
    where
      handled :
          (rest : (rb1 : Option Ringbuf) (s1 : S)
            → P s1
            → chunk_loop handle fuel rb1 s1 ≡ ok (ret, rb', s')
            → P s')
          → (x : ℕ) (xs : List ℕ) (rb1 : Option Ringbuf)
          → get_tcp_buf_chunk buffer_size rb ≡ ok (x ∷ xs, rb1)
          → (m : Run (ℤ × S)) → handle s (x ∷ xs) ≡ m
          → P s'
      handled rest x xs rb1 g fault f = absurd (ground (arith, g, f))
      handled rest x xs rb1 g (ok (r, s1)) f =
          let p1 = keeps s s1 (x ∷ xs) r p f in
          elim (Bool-cases (int_eq r (pos 0))) [
            | inl accepted ↦ rest rb1 s1 p1 (ground (arith, g, f, accepted))
            | inr refused ↦ subst P (ground (arith, g, f, refused)) p1
          ]

      got :
          (rest : (rb1 : Option Ringbuf) (s1 : S)
            → P s1
            → chunk_loop handle fuel rb1 s1 ≡ ok (ret, rb', s')
            → P s')
          → (m : Run (List ℕ × Option Ringbuf)) → get_tcp_buf_chunk buffer_size rb ≡ m
          → P s'
      got rest fault g = absurd (ground (arith, g))
      got rest (ok ([], rb1)) g = subst P (ground (arith, g)) p
      got rest (ok (x ∷ xs, rb1)) g = handled rest x xs rb1 g (handle s (x ∷ xs)) refl

  pub tcp_recv-keeps :
      (alloc : ℕ → Option (List ℕ)) (rb rb' : Option Ringbuf) (s s' : S) (bytes : List ℕ) (ret : ℤ)
      → P s
      → tcp_recv handle alloc rb s bytes ≡ ok (ret, rb', s')
      → P s'
  unfolding tcp_recv
  tcp_recv-keeps alloc rb rb' s s' bytes ret p h = got (on_tcp_recv alloc rb bytes) refl
    where
      handled :
          (len : ℕ) (rb1 : Option Ringbuf)
          → on_tcp_recv alloc rb bytes ≡ ok (len, rb1)
          → is_positive (to_int len) ≡ true
          → (m : Run (ℤ × S)) → handle s (take len bytes) ≡ m
          → P s'
      handled len rb1 g z fault f = absurd (ground (arith, g, f))
      handled len rb1 g z (ok (r, s1)) f =
          let p1 = keeps s s1 (take len bytes) r p f in
          elim (Bool-cases (int_eq r (pos 0))) [
            | inl accepted ↦
                chunk_loop-keeps (pending rb1 + 1) rb1 rb' s1 s' ret p1
                  (ground (arith, g, f, accepted))
            | inr refused ↦ subst P (ground (arith, g, f, refused)) p1
          ]

      got : (m : Run (ℕ × Option Ringbuf)) → on_tcp_recv alloc rb bytes ≡ m → P s'
      got fault g = absurd (ground (arith, g))
      got (ok (len, rb1)) g = elim (Bool-cases (is_positive (to_int len))) [
        | inl some_read ↦ handled len rb1 g some_read (handle s (take len bytes)) refl
        | inr none_read ↦
            chunk_loop-keeps (pending rb1 + 1) rb1 rb' s s' ret p (ground (arith, g, none_read))
      ]
