-- ===== src/Block.antt =====
-- Blocks of the two disks: the requests of kernel/virtio.c, and read_block, write_block of
-- kernel/fs.c. The virtqueue carries one request at a time; a request is its effect on the disk.
pub mod Laws
use dmaos.Base.{
  ℕ, ◌+◌, ◌-◌, ◌*◌, ◌%◌, ◌^◌, leb, ltb, ◌==◌, if◌then◌else◌, Bool, true, false, not, Bytes, upd,
  copy_bytes,
}
use dmaos.Machine.{Kernel, ok, M, pure, stop, ◌>>=◌}
use dmaos.Machine.Consts.{sectors_per_block, sector_size}

-- The write of a sector's 512 bytes.
abbrev pub store_sector : ℕ → ℕ → Bytes → Kernel → Kernel
store_sector dev sector data_in k = record k {
  sectors = upd k.sectors dev (upd (k.sectors dev) sector data_in);
}

-- PANIC unless the device is one of the two, the sector exists and the device reports success.
-- A write takes its 512 bytes from `buf`; a read returns those that it puts there.
unfoldable pub read_write_device : ℕ → Bytes → ℕ → Bool → M Bytes
read_write_device dev buf sector is_write k =
    if leb 2 dev
    then stop k
    else if leb (k.capacity dev) sector
    then stop k
    else if not (k.status dev sector == 0)
    then stop k
    else if is_write
    then ok buf (store_sector dev sector (copy_bytes (k.sectors dev sector) 0 buf 0 sector_size) k)
    else ok (k.sectors dev sector) k

unfoldable pub read_device : ℕ → Bytes → ℕ → M Bytes
unfolding read_write_device
read_device dev buf sector = read_write_device dev buf sector false

unfoldable pub write_device : ℕ → Bytes → ℕ → M Bytes
unfolding read_write_device
write_device dev buf sector = read_write_device dev buf sector true

-- A buffer on the kernel's stack before anything is written to it. No byte of it is read.
abbrev pub fresh : Bytes
fresh _ = 0

-- `buf + SECTOR_SIZE`, and the 1024 bytes that two reads fill.
abbrev pub second_half : Bytes → Bytes
second_half buf o = buf (sector_size + o)

abbrev pub join_halves : Bytes → Bytes → Bytes
join_halves lo hi o = if ltb o sector_size then lo o else hi (o - sector_size)

-- `block * SECTORS_PER_BLOCK`, a `uint32_t`.
abbrev pub first_sector : ℕ → ℕ
first_sector block = block * sectors_per_block % 2 ^ 32

unfoldable pub read_block : ℕ → ℕ → M Bytes
unfolding read_device
read_block dev block = do
  lo ← read_device dev fresh (first_sector block)
  hi ← read_device dev fresh (first_sector block + 1)
  pure (join_halves lo hi)

unfoldable pub write_block : ℕ → ℕ → Bytes → M (Unit {0})
unfolding write_device
write_block dev block buf = do
  _ ← write_device dev buf (first_sector block)
  _ ← write_device dev (second_half buf) (first_sector block + 1)
  pure tt
