-- ===== src/Str.antt =====
-- The string and memory functions of kernel/stdlib.c. A C string is the list of its bytes up to
-- the terminating NUL; a list may also be a buffer with NULs in it, and its end reads as NUL.
pub mod Memory
pub mod Compare
use dmaos.Base.{
  ℕ, zero, suc, ◌+◌, ltb, ◌==◌, if◌then◌else◌, Bool, false, not, ◌||◌, ◌&&◌, Option, none, some,
  List, [], ◌∷◌, Bytes, upd, ℤ, pos, sub_ℕ,
}

-- `*s`.
abbrev pub peek : List ℕ → ℕ
peek [] = 0
peek (c ∷ s) = c

unfoldable pub strlen : List ℕ → ℕ
strlen [] = 0
strlen (c ∷ s) = if c == 0 then 0 else suc (strlen s)

unfoldable pub strcmp : List ℕ → List ℕ → ℤ
strcmp [] s2 = sub_ℕ 0 (peek s2)
strcmp (a ∷ s1) [] = sub_ℕ a 0
strcmp (a ∷ s1) (b ∷ s2) = if (a == 0 || b == 0) || not (a == b) then sub_ℕ a b else strcmp s1 s2

unfoldable pub strncmp : List ℕ → List ℕ → ℕ → ℤ
strncmp s1 s2 zero = pos 0
strncmp [] s2 (suc n) = sub_ℕ 0 (peek s2)
strncmp (a ∷ s1) [] (suc n) = sub_ℕ a 0
strncmp (a ∷ s1) (b ∷ s2) (suc n) = if not (a == 0) && a == b then strncmp s1 s2 n else sub_ℕ a b

-- The `n` bytes that the call stores at its destination.
unfoldable pub strncpy : List ℕ → ℕ → List ℕ
strncpy src zero = []
strncpy [] (suc n) = 0 ∷ strncpy [] n
strncpy (c ∷ src) (suc n) = if c == 0 then 0 ∷ strncpy [] n else c ∷ strncpy src n

-- The bytes of `src` that a bounded copy takes: at most `n`, and none from its NUL on.
unfoldable pub head_of : List ℕ → ℕ → List ℕ
head_of src zero = []
head_of [] (suc n) = []
head_of (c ∷ src) (suc n) = if c == 0 then [] else c ∷ head_of src n

-- The string at the destination afterwards.
unfoldable pub strncat : List ℕ → List ℕ → ℕ → List ℕ
unfolding head_of
strncat [] src n = head_of src n
strncat (d ∷ dst) src n = if d == 0 then head_of src n else d ∷ strncat dst src n

-- The rest of the string from the first `c` on; its end, if `c` is NUL.
unfoldable pub strchr : List ℕ → ℕ → Option (List ℕ)
strchr [] c = if c == 0 then some [] else none
strchr (a ∷ s) c =
    if a == 0
    then if c == 0 then some (a ∷ s) else none
    else if a == c
    then some (a ∷ s)
    else strchr s c

-- `r == 0`.
abbrev pub is_zero : ℤ → Bool
is_zero (pos n) = n == 0
is_zero _ = false

unfoldable pub strstr_from : List ℕ → List ℕ → Option (List ℕ)
unfolding strncmp strlen
strstr_from [] needle = none
strstr_from (a ∷ s) needle =
    if a == 0
    then none
    else if is_zero (strncmp (a ∷ s) needle (strlen needle))
    then some (a ∷ s)
    else strstr_from s needle

unfoldable pub strstr : List ℕ → List ℕ → Option (List ℕ)
unfolding strstr_from
strstr haystack needle = if strlen needle == 0 then some haystack else strstr_from haystack needle

-- `*dst++ = *src++`, `n` times, in the memory `mem`.
unfoldable pub copy_up : Bytes → ℕ → ℕ → ℕ → Bytes
copy_up mem dst src zero = mem
copy_up mem dst src (suc n) = copy_up (upd mem dst (mem src)) (dst + 1) (src + 1) n

-- `*--d = *--s`, `n` times, from `dst + n` and `src + n` down.
unfoldable pub copy_down : Bytes → ℕ → ℕ → ℕ → Bytes
copy_down mem dst src zero = mem
copy_down mem dst src (suc n) = copy_down (upd mem (dst + n) (mem (src + n))) dst src n

unfoldable pub memcpy : Bytes → ℕ → ℕ → ℕ → Bytes
unfolding copy_up
memcpy mem dst src n = copy_up mem dst src n

unfoldable pub memmove : Bytes → ℕ → ℕ → ℕ → Bytes
unfolding copy_up copy_down
memmove mem dst src n =
    if ltb dst src
    then copy_up mem dst src n
    else if ltb src dst
    then copy_down mem dst src n
    else mem

unfoldable pub memset : Bytes → ℕ → ℕ → ℕ → Bytes
memset mem buf c zero = mem
memset mem buf c (suc n) = memset (upd mem buf c) (buf + 1) c n

unfoldable pub memcmp : Bytes → ℕ → ℕ → ℕ → ℤ
memcmp mem s1 s2 zero = pos 0
memcmp mem s1 s2 (suc n) =
    let rest = memcmp mem (s1 + 1) (s2 + 1) n in
    if mem s1 == mem s2 then rest else sub_ℕ (mem s1) (mem s2)
