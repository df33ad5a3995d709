-- ===== src/Fastgen/ISet/Single.antt =====
-- The trees of cwm/fastgen/utils/iset.py that hold one number.
use cwm.Prelude.{ℕ, zero, suc, ◌≤◌, ◌<◌, ◌≡◌, refl, true, false, arith}
use cwm.Fastgen.ISet.{Node, mem, chk, bit}
use cwm.Fastgen.ISet.Bits.{mask, field, pow, pow_pos, pow_double}
use cwm.Fastgen.ISet.Tree.{IsTree, IsBody, IsSome}
use cwm.Fastgen.ISet.Count.{size, size-mem, size-chk, size-bit}

pow_many : (k : ℕ) → 0 < k → 2 ≤ pow k
pow_many zero h = absurd (omega arith)
pow_many (suc k) h = omega (arith, pow_double k, pow_pos k)

IsBody-IsSome : (t : Node) → IsBody t → IsSome t
IsBody-IsSome (mem b) h = ground arith
IsBody-IsSome (chk m b c) h = refl
IsBody-IsSome (bit m c d) h = refl

size_pos : (k : ℕ) (t : Node) → IsTree k t → IsSome t → 0 < size k t
size_pos k (mem true) w h = omega (arith, size-mem k true, pow_pos k)
size_pos k (mem false) w h = cc
size_pos k (chk m b c) (j, p, body, w) h =
    let lt = p.below in
    let pos = size_pos j c w (IsBody-IsSome c body) in
    rw p.ones (omega (arith, pos, size-chk j k b c lt p.fits w))
size_pos k (bit m c d) (n, e, o, sc, sd, wc, wd) h =
    let pos = size_pos n c wc sc in rw (o, e) (omega (arith, pos, size-bit n c d wd))

bit_many : (k m : ℕ) (c d : Node) → IsTree k (bit m c d) → 2 ≤ size k (bit m c d)
bit_many k m c d (n, e, o, sc, sd, wc, wd) =
    let pos = size_pos n c wc sc in
    let pos' = size_pos n d wd sd in rw (o, e) (omega (arith, pos, pos', size-bit n c d wd))

-- A set of one number is the prefix of all its places.
abbrev pub OneNumber : ℕ → Node → Type 0
OneNumber k t = (b : ℕ) × (t ≡ chk (mask 0 k) b (mem true)) × (field 0 k b ≡ b)

one_prefix :
    (j k b : ℕ)
    → j < k
    → field j k b ≡ b
    → size k (chk (mask j k) b (mem true)) ≡ 1
    → OneNumber k (chk (mask j k) b (mem true))
one_prefix zero k b h own e = (b, refl, own)
one_prefix (suc j) k b h own e = absurd (
    omega (
      arith,
      size-chk (suc j) k b (mem true) h own tt,
      size-mem (suc j) true,
      pow_many (suc j) (omega arith),
    ))

pub one_member : (k : ℕ) (t : Node) → 0 < k → IsTree k t → size k t ≡ 1 → OneNumber k t
one_member k (mem true) h w e = absurd (omega (arith, size-mem k true, pow_many k h))
one_member k (mem false) h w e = absurd (omega (arith, size-mem k false))
one_member k (chk m b (mem true)) h (j, p, body, w) e =
    let lt = p.below in let e' = rw p.ones at e in rw p.ones (one_prefix j k b lt p.fits e')
one_member k (chk m b (mem false)) h (j, p, body, w) e = cc
one_member k (chk m b (chk m' b' c)) h (j, p, body, w) e = absurd body
one_member k (chk m b (bit m' c d)) h (j, p, body, w) e =
    let lt = p.below in
    let e' = rw p.ones at e in
    absurd (omega (arith, e', bit_many j m' c d w, size-chk j k b (bit m' c d) lt p.fits w))
one_member k (bit m c d) h w e = absurd (omega (arith, bit_many k m c d w))
