-- ===== src/Base/Words.antt =====
-- `uint32_t` arithmetic, and words stored as little-endian bytes in a block of memory.
use Prim.Native.Nat.{ℕ, ◌+◌, ◌-◌, ◌*◌, ◌/◌, ◌%◌, ◌^◌}
use mathlib.Core.Bool.{◌&&◌}
use mathlib.Core.Path.{◌≡◌}
use mathlib.Core.Logic.{◌≢◌}
use dmaos.Base.Tests.{==_refl, ==_ne, ◌==◌, leb, ltb, if◌then◌else◌}

abbrev pub add32 : ℕ → ℕ → ℕ
add32 a b = (a + b) % 2 ^ 32

abbrev pub sub32 : ℕ → ℕ → ℕ
sub32 a b = (a + 2 ^ 32 - b) % 2 ^ 32

-- A block of memory: the byte at each offset.
abbrev pub Bytes : Type 0
Bytes = ℕ → ℕ

abbrev pub put8 : Bytes → ℕ → ℕ → Bytes
put8 b at v o = if o == at then v % 256 else b o

abbrev pub get16 : Bytes → ℕ → ℕ
get16 b at = b at + 256 * b (at + 1)

abbrev pub put16 : Bytes → ℕ → ℕ → Bytes
put16 b at v = put8 (put8 b at v) (at + 1) (v / 256)

abbrev pub get32 : Bytes → ℕ → ℕ
get32 b at = get16 b at + 65536 * get16 b (at + 2)

abbrev pub put32 : Bytes → ℕ → ℕ → Bytes
put32 b at v = put16 (put16 b at v) (at + 2) (v / 65536)

-- A table with one entry replaced.
abbrev pub upd {ℓ} : {A : Type ℓ} → (ℕ → A) → ℕ → A → ℕ → A
upd f i v j = if j == i then v else f j

-- `memcpy(dst + at, src + from, n)`.
abbrev pub copy_bytes : Bytes → ℕ → Bytes → ℕ → ℕ → Bytes
copy_bytes dst at src from n o = if leb at o && ltb o (at + n) then src (from + (o - at)) else dst o

pub upd_self {ℓ} : {A : Type ℓ} (f : ℕ → A) (i : ℕ) (v : A) → upd f i v i ≡ v
upd_self f i v = rw (==_refl i)

pub upd_ne {ℓ} : {A : Type ℓ} (f : ℕ → A) (i j : ℕ) (v : A) → j ≢ i → upd f i v j ≡ f j
upd_ne f i j v h = rw (==_ne j i h)
