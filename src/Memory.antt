-- ===== src/Memory.antt =====
-- `memcpy` to and from an object of known size, with the bounds that C leaves to the caller.
use kcpev.Base.{
  ℕ, ◌+◌, ◌≡◌, sym, ap, ◌∙◌, ◌++◌, List, leb, if◌then◌else◌, length, take, drop, arith, Run, ok,
  fault, length-append, take-append, drop-append, drop-append_right,
}

-- `memcpy(&d[off], src, length src)`
unfoldable pub memcpy : List ℕ → ℕ → List ℕ → Run (List ℕ)
memcpy d off src =
    if leb (off + length src) (length d)
    then ok (take off d ++ (src ++ drop (off + length src) d))
    else fault

-- `memcpy(out, &d[off], len)`
unfoldable pub read : List ℕ → ℕ → ℕ → Run (List ℕ)
read d off len = if leb (off + len) (length d) then ok (take len (drop off d)) else fault

-- A copy replaces the part of the same length at the offset.
pub memcpy-append :
    (pre old post src : List ℕ) (off : ℕ)
    → off ≡ length pre
    → length old ≡ length src
    → memcpy (pre ++ (old ++ post)) off src ≡ ok (pre ++ (src ++ post))
unfolding memcpy
memcpy-append pre old post src off e f = ground (
  arith,
  length-append pre (old ++ post),
  length-append old post,
  take-append off pre (old ++ post) e,
  drop-append_right (off + length src) (length src) pre (old ++ post) (omega arith),
  drop-append (length src) old post (omega arith),
)

pub read-append :
    (pre mid post : List ℕ) (off len : ℕ)
    → off ≡ length pre
    → len ≡ length mid
    → read (pre ++ (mid ++ post)) off len ≡ ok mid
unfolding read
read-append pre mid post off len e f = ground (
  arith,
  length-append pre (mid ++ post),
  length-append mid post,
  drop-append off pre (mid ++ post) e,
  take-append len mid post f,
)

-- The same for a memory that is known by equations.
pub memcpy_at :
    {d d' : List ℕ} (pre old post src : List ℕ) (off : ℕ)
    → d ≡ pre ++ (old ++ post)
    → off ≡ length pre
    → length old ≡ length src
    → d' ≡ pre ++ (src ++ post)
    → memcpy d off src ≡ ok d'
memcpy_at pre old post src off e f g e' =
    ap (λ m. memcpy m off src) e ∙ memcpy-append pre old post src off f g ∙ sym (ap ok e')

pub read_at :
    {d : List ℕ} (pre mid post : List ℕ) (off len : ℕ)
    → d ≡ pre ++ (mid ++ post)
    → off ≡ length pre
    → len ≡ length mid
    → read d off len ≡ ok mid
read_at pre mid post off len e f g =
    ap (λ m. read m off len) e ∙ read-append pre mid post off len f g
