-- ===== src/Base/Memory.antt =====
-- Laws of the reads and writes of src/common/types.h: what a write leaves, and what a read gives.
use Prim.Native.Nat.{ℕ, ◌+◌, ◌^◌, ◌≤◌, ◌<◌}
use mathlib.Core.Path.{◌≡◌, ◌∙◌}
use mathlib.Core.Logic.{◌⊎◌, inl}
use mathlib.Core.List.{List}
use native.Mathlib.Omega.{arith}
use dol_recomp.Base.Lists.{length, get_or, set, length-set}
use dol_recomp.Base.Word.{u8, u32, shr}
use dol_recomp.Base.Bytes.{
  read_be16, read_be32, read_be64, write_be16, write_be32, write_be64, join_16, join_32,
  bit_or_above, get_or-set_if,
}

pub length-write_be16 : (p : List ℕ) (at v : ℕ) → length (write_be16 p at v) ≡ length p
unfolding write_be16
length-write_be16 p at v = length-set (set p at _) (at + 1) _ ∙ length-set p at _

pub length-write_be32 : (p : List ℕ) (at v : ℕ) → length (write_be32 p at v) ≡ length p
unfolding write_be32
length-write_be32 p at v =
    length-set (set (set (set p at _) (at + 1) _) (at + 2) _) (at + 3) _
    ∙ (length-set (set (set p at _) (at + 1) _) (at + 2) _
        ∙ (length-set (set p at _) (at + 1) _ ∙ length-set p at _))

pub length-write_be64 : (p : List ℕ) (at v : ℕ) → length (write_be64 p at v) ≡ length p
unfolding write_be64
length-write_be64 p at v =
    length-write_be32 (write_be32 p at (u32 (shr v 32))) (at + 4) (u32 v)
    ∙ length-write_be32 p at (u32 (shr v 32))

-- Bytes in place `at` and the one above it, where both are in range.
bytes_16 :
    (p : List ℕ) (at v : ℕ)
    → at + 2 ≤ length p
    → (get_or (write_be16 p at v) at 0 ≡ u8 (shr v 8))
      × (get_or (write_be16 p at v) (at + 1) 0 ≡ u8 v)
unfolding write_be16
bytes_16 p at v h =
    let a = set p at (u8 (shr v 8)) in
    let la = length-set p at (u8 (shr v 8)) in
    let here = get_or-set_if a (at + 1) (at + 1) (u8 v) in
    let kept = get_or-set_if a (at + 1) at (u8 v) in
    let first = get_or-set_if p at at (u8 (shr v 8)) in (ground arith, ground arith)

pub write_be16-other :
    (p : List ℕ) (at v j : ℕ)
    → (j < at) ⊎ (at + 2 ≤ j)
    → get_or (write_be16 p at v) j 0 ≡ get_or p j 0
unfolding write_be16
write_be16-other p at v j h =
    let a = set p at (u8 (shr v 8)) in
    let one = get_or-set_if a (at + 1) j (u8 v) in
    let two = get_or-set_if p at j (u8 (shr v 8)) in ground arith

pub write_be32-other :
    (p : List ℕ) (at v j : ℕ)
    → (j < at) ⊎ (at + 4 ≤ j)
    → get_or (write_be32 p at v) j 0 ≡ get_or p j 0
unfolding write_be32
write_be32-other p at v j h =
    let a = set p at (u8 (shr v 24)) in
    let b = set a (at + 1) (u8 (shr v 16)) in
    let c = set b (at + 2) (u8 (shr v 8)) in
    let one = get_or-set_if c (at + 3) j (u8 v) in
    let two = get_or-set_if b (at + 2) j (u8 (shr v 8)) in
    let three = get_or-set_if a (at + 1) j (u8 (shr v 16)) in
    let four = get_or-set_if p at j (u8 (shr v 24)) in ground arith

-- The four bytes of a write, wherever it stands in range.
pub bytes_32 :
    (p : List ℕ) (at v : ℕ)
    → at + 4 ≤ length p
    → (get_or (write_be32 p at v) at 0 ≡ u8 (shr v 24))
      × (get_or (write_be32 p at v) (at + 1) 0 ≡ u8 (shr v 16))
      × (get_or (write_be32 p at v) (at + 2) 0 ≡ u8 (shr v 8))
      × (get_or (write_be32 p at v) (at + 3) 0 ≡ u8 v)
unfolding write_be32
bytes_32 p at v h =
    let a = set p at (u8 (shr v 24)) in
    let b = set a (at + 1) (u8 (shr v 16)) in
    let c = set b (at + 2) (u8 (shr v 8)) in
    let la = length-set p at (u8 (shr v 24)) in
    let lb = length-set a (at + 1) (u8 (shr v 16)) in
    let lc = length-set b (at + 2) (u8 (shr v 8)) in
    let last : (j : ℕ) → j < at + 3 → get_or (set c (at + 3) (u8 v)) j 0 ≡ get_or c j 0 =
      λ j lt. let i = get_or-set_if c (at + 3) j (u8 v) in ground arith in
    let third : (j : ℕ) → j < at + 2 → get_or c j 0 ≡ get_or b j 0 =
      λ j lt. let i = get_or-set_if b (at + 2) j (u8 (shr v 8)) in ground arith in
    let second : get_or b at 0 ≡ get_or a at 0 =
      (let i = get_or-set_if a (at + 1) at (u8 (shr v 16)) in ground arith) in
    let fa = get_or-set_if p at at (u8 (shr v 24)) in
    let fb = get_or-set_if a (at + 1) (at + 1) (u8 (shr v 16)) in
    let fc = get_or-set_if b (at + 2) (at + 2) (u8 (shr v 8)) in
    let fd = get_or-set_if c (at + 3) (at + 3) (u8 v) in
    (
      last at (omega arith) ∙ (third at (omega arith) ∙ (second ∙ ground arith)),
      last (at + 1) (omega arith) ∙ (third (at + 1) (omega arith) ∙ ground arith),
      last (at + 2) (omega arith) ∙ ground arith,
      ground arith,
    )

-- What is written is read back.
pub read_be16-write_be16 :
    (p : List ℕ) (at v : ℕ) → at + 2 ≤ length p → v < 2 ^ 16 → read_be16 (write_be16 p at v) at ≡ v
unfolding read_be16
read_be16-write_be16 p at v h lt =
    let (high, low) = bytes_16 p at v h in
    rw high (rw low (join_16 (u8 (shr v 8)) (u8 v) (omega arith) ∙ omega arith))

pub read_be32-write_be32 :
    (p : List ℕ) (at v : ℕ) → at + 4 ≤ length p → v < 2 ^ 32 → read_be32 (write_be32 p at v) at ≡ v
unfolding read_be32
read_be32-write_be32 p at v h lt =
    let (a, b, c, d) = bytes_32 p at v h in
    rw a (
      rw b (
        rw c (
          rw d (
            join_32 (u8 (shr v 24)) (u8 (shr v 16)) (u8 (shr v 8)) (u8 v) (omega arith)
              (omega arith) (omega arith)
            ∙ omega arith))))

-- A read sees only its own four bytes.
pub read_be32_same :
    (p q : List ℕ) (at : ℕ)
    → ((j : ℕ) → at ≤ j → j < at + 4 → get_or p j 0 ≡ get_or q j 0)
    → read_be32 p at ≡ read_be32 q at
unfolding read_be32
read_be32_same p q at h = rw (h at (omega arith) (omega arith)) (
    rw (h (at + 1) (omega arith) (omega arith))
      (rw (h (at + 2) (omega arith) (omega arith)) (rw (h (at + 3) (omega arith) (omega arith)))))

pub read_be64-write_be64 :
    (p : List ℕ) (at v : ℕ) → at + 8 ≤ length p → v < 2 ^ 64 → read_be64 (write_be64 p at v) at ≡ v
unfolding read_be64 write_be64
read_be64-write_be64 p at v h lt =
    let q = write_be32 p at (u32 (shr v 32)) in
    let len = length-write_be32 p at (u32 (shr v 32)) in
    let low = read_be32-write_be32 q (at + 4) (u32 v) (omega arith) (omega arith) in
    let kept =
      read_be32_same (write_be32 q (at + 4) (u32 v)) q at
        (λ j le less. write_be32-other q (at + 4) (u32 v) j (inl less)) in
    let high = read_be32-write_be32 p at (u32 (shr v 32)) (omega arith) (omega arith) in
    rw (kept ∙ high) (rw low (bit_or_above 32 (u32 (shr v 32)) (u32 v) (omega arith) ∙ omega arith))
