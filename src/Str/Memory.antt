-- ===== src/Str/Memory.antt =====
-- memcpy, memmove and memset of kernel/stdlib.c against their specification on a snapshot.
use dmaos.Base.{ℕ, zero, suc, ◌+◌, ◌≤◌, ◌≡◌, ◌⊎◌, arith, Bytes, upd, copy_bytes}
use dmaos.Str.{copy_up, copy_down, memmove}

-- Copying upwards is right if the destination does not start inside the bytes still to be read.
copy_up-eq :
    (n : ℕ) (mem : Bytes) (dst src a : ℕ)
    → (dst ≤ src) ⊎ (src + n ≤ dst)
    → copy_up mem dst src n a ≡ copy_bytes mem dst mem src n a
unfolding copy_up
copy_up-eq zero mem dst src a h = ground arith
copy_up-eq (suc n) mem dst src a h =
    ground (arith, copy_up-eq n (upd mem dst (mem src)) (dst + 1) (src + 1) a)

copy_down-eq :
    (n : ℕ) (mem : Bytes) (dst src a : ℕ)
    → src ≤ dst
    → copy_down mem dst src n a ≡ copy_bytes mem dst mem src n a
unfolding copy_down
copy_down-eq zero mem dst src a h = ground arith
copy_down-eq (suc n) mem dst src a h =
    ground (arith, copy_down-eq n (upd mem (dst + n) (mem (src + n))) dst src a)

-- `memmove` copies right whatever the overlap: each of the `n` bytes at `dst` is the byte that
-- stood at its place in the source before the call, and all other bytes of memory are unchanged.
pub memmove-copy_bytes :
    (mem : Bytes) (dst src n a : ℕ) → memmove mem dst src n a ≡ copy_bytes mem dst mem src n a
unfolding memmove
memmove-copy_bytes mem dst src n a =
    ground (arith, copy_up-eq n mem dst src a, copy_down-eq n mem dst src a)
