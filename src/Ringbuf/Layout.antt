-- ===== src/Ringbuf/Layout.antt =====
-- What the bytes of a ring stand for: the invariant, the pending bytes, and the two shapes in which
-- they lie in memory.
use native.Mathlib.Nat.{mod-eq_of_lt, mod-eq-sub-mod}
use native.Mathlib.Decide.{dec_lt}
use kcpev.Base.{
  ℕ, ◌+◌, ◌-◌, ◌%◌, ◌^◌, ◌≤◌, ◌<◌, ◌≡◌, refl, sym, ap, subst, ◌∙◌, ◌⊎◌, inl, inr, List, ◌++◌,
  append_assoc, length, take, drop, length-append, length-take, length-drop, split_at, take-append,
  drop-append, arith,
}
use kcpev.Ringbuf.{Ringbuf}

-- 2 ^ 63 bounds what `malloc` can give.
pub record IsValid (r : Ringbuf) : Type 0 where
  pub storage : length r.d ≡ r.n
  pub nonempty : 0 < r.n
  pub small : r.n ≤ 2 ^ 63
  pub output_in : r.o < r.n
  pub used_in : r.u ≤ r.n
  pub input_at : r.i ≡ (r.o + r.u) % r.n

-- The pending bytes, oldest first: `u` bytes from the output position on, going round at the end.
abbrev pub contents : Ringbuf → List ℕ
contents r = take r.u (drop r.o r.d ++ take r.o r.d)

-- The bytes `q` lie in one piece, or run over the end of the memory.
pub data Layout (d : List ℕ) (o n : ℕ) (q : List ℕ) : Type 0 where
  straight :
      (pre post : List ℕ)
      → d ≡ pre ++ (q ++ post)
      → o ≡ length pre
      → n ≡ length pre + length q + length post
      → Layout d o n q
  wrapped :
      (back gap front : List ℕ)
      → q ≡ front ++ back
      → d ≡ back ++ (gap ++ front)
      → o ≡ length back + length gap
      → n ≡ length back + length gap + length front
      → Layout d o n q

pub Layout-contents :
    (d : List ℕ) (o n u : ℕ) (q : List ℕ)
    → Layout d o n q
    → u ≡ length q
    → take u (drop o d ++ take o d) ≡ q
Layout-contents d o n u q (straight pre post e f g) h = ground (
  arith,
  drop-append o pre (q ++ post) f,
  take-append o pre (q ++ post) f,
  append_assoc q post pre,
  take-append u q (post ++ pre) h,
)
Layout-contents d o n u q (wrapped back gap front e f g k) h = ground (
  arith,
  append_assoc back gap front,
  length-append back gap,
  length-append front back,
  drop-append o (back ++ gap) front (omega (arith, length-append back gap)),
  take-append o (back ++ gap) front (omega (arith, length-append back gap)),
  append_assoc front back gap,
  take-append u (front ++ back) gap,
)

-- The input position without a modulus.
pub input_cases :
    (o u n : ℕ)
    → o < n
    → u ≤ n
    → ((o + u < n) × ((o + u) % n ≡ o + u)) ⊎ ((n ≤ o + u) × ((o + u) % n ≡ o + u - n))
input_cases o u n h k = elim (dec_lt (o + u) n) [
  | yes p ↦ inl (p, mod-eq_of_lt p)
  | no p ↦
      inr
        (omega arith, mod-eq-sub-mod {n = o + u} {m = n} (omega arith) ∙ mod-eq_of_lt (omega arith))
]

pub length-contents : {r : Ringbuf} → IsValid r → length (contents r) ≡ r.u
length-contents {r} v = omega (
  arith,
  length-take r.u (drop r.o r.d ++ take r.o r.d),
  length-append (drop r.o r.d) (take r.o r.d),
  length-drop r.o r.d,
  length-take r.o r.d,
)

-- A layout of the pending bytes is found by cutting the memory at the output position.
Layout-of :
    (d : List ℕ) (o n u : ℕ)
    → length d ≡ n
    → o < n
    → u ≤ n
    → (q : List ℕ) × Layout d o n q × (length q ≡ u)
Layout-of d o n u s h k = elim (dec_lt (o + u) n) [
  | yes p ↦
      let (pre, rest, e, f, g) = split_at o d (omega arith) in
      let (mid, post, e', f', g') = split_at u rest (omega arith) in
      (mid, straight pre post (e ∙ ap (◌++◌ pre) e') (omega arith) (omega arith), f')
  | no p ↦
      let (pre, front, e, f, g) = split_at o d (omega arith) in
      let (back, gap, e', f', g') = split_at (o + u - n) pre (omega arith) in
      (
        front ++ back,
        wrapped back gap front refl
            (e ∙ ap (λ part. part ++ front) e' ∙ append_assoc back gap front)
            (omega (arith, ap length e', length-append back gap)) (omega arith),
        omega (arith, length-append front back),
      )
]

pub layout : {r : Ringbuf} → IsValid r → Layout r.d r.o r.n (contents r)
layout {r} v =
    let (q, l, e) = Layout-of r.d r.o r.n r.u v.storage v.output_in v.used_in in
    subst (Layout r.d r.o r.n) (sym (Layout-contents r.d r.o r.n r.u q l (sym e))) l

length-Layout : {d q : List ℕ} {o n : ℕ} → Layout d o n q → length d ≡ n
length-Layout {q} (straight pre post e f g) =
    rw e (omega (arith, length-append pre (q ++ post), length-append q post))
length-Layout (wrapped back gap front e f g h) =
    rw f (omega (arith, length-append back (gap ++ front), length-append gap front))

length-le-Layout : {d q : List ℕ} {o n : ℕ} → Layout d o n q → length q ≤ n
length-le-Layout (straight pre post e f g) = omega arith
length-le-Layout (wrapped back gap front e f g h) = rw e (omega (arith, length-append front back))

-- A ring with a layout of `q` is valid and holds `q`.
pub Layout-IsValid :
    (r : Ringbuf) (q : List ℕ)
    → Layout r.d r.o r.n q
    → r.u ≡ length q
    → 0 < r.n
    → r.n ≤ 2 ^ 63
    → r.o < r.n
    → r.i ≡ (r.o + r.u) % r.n
    → IsValid r × (contents r ≡ q)
Layout-IsValid r q l e h k out inp = (
  record {
    storage = length-Layout l;
    nonempty = h;
    small = k;
    output_in = out;
    used_in = rw e (length-le-Layout l);
    input_at = inp;
  },
  Layout-contents r.d r.o r.n r.u q l e,
)
