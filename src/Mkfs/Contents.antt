-- ===== src/Mkfs/Contents.antt =====
-- The contents of a file of the image: the loop of add_file of tools/mkfs.c and the tables of its blocks.
-- In the last block of a file the bytes behind the end are zero here; in a file of one block the tool
-- leaves them as they were in its buffer.
use dmaos.Base.{
  ℕ, zero, suc, ◌+◌, ◌-◌, ◌/◌, ◌%◌, ◌^◌, ◌==◌, ltb, leb, if◌then◌else◌, Bool, false, Option, none,
  some, List, [], ◌∷◌, length, take, drop, get_or, Bytes, upd,
}
use dmaos.Machine.Consts.{bsize, ndirect, nindirect, ndindirect}
use dmaos.Mkfs.{Tool, pure, exit, ◌>>=◌, ◌>>◌}
use dmaos.Mkfs.Store.{balloc, write_block}

-- The local variables of the loop.
pub record FileMap : Type 0 where
  pub block_index : ℕ
  pub size : ℕ
  pub addrs : ℕ → ℕ
  pub indirect_block : ℕ
  pub indirect_addrs : ℕ → ℕ
  pub dindirect_addrs : ℕ → ℕ
  pub dsub_addrs : ℕ → ℕ
  pub active_d_idx : Option ℕ

abbrev pub no_addrs : ℕ → ℕ
no_addrs _ = 0

abbrev pub empty_map : FileMap
empty_map = record {
  block_index = 0;
  size = 0;
  addrs = no_addrs;
  indirect_block = 0;
  indirect_addrs = no_addrs;
  dindirect_addrs = no_addrs;
  dsub_addrs = no_addrs;
  active_d_idx = none;
}

-- A table of addresses as a block.
abbrev pub table_bytes : (ℕ → ℕ) → Bytes
table_bytes addrs o = addrs (o / 4) / 256 ^ (o % 4) % 256

unfoldable pub indirect_table : FileMap → Tool FileMap
indirect_table f = do
  b ← balloc
  pure (record f { indirect_block = b; addrs = upd f.addrs ndirect b; indirect_addrs = no_addrs })

unfoldable pub place_indirect : ℕ → FileMap → Tool FileMap
place_indirect db f = do
  f ← if f.indirect_block == 0 then indirect_table f else pure f
  pure (record f { indirect_addrs = upd f.indirect_addrs (f.block_index - ndirect) db })

unfoldable pub top_table : FileMap → Tool FileMap
top_table f = do
  b ← balloc
  pure (record f { addrs = upd f.addrs (ndirect + 1) b; dindirect_addrs = no_addrs })

-- Writes the table that is being filled.
unfoldable pub flush_table : FileMap → Option ℕ → Tool (Unit {0})
flush_table f none = pure tt
flush_table f (some d) =
    if f.dindirect_addrs d == 0
    then pure tt
    else write_block (f.dindirect_addrs d) (table_bytes f.dsub_addrs)

unfoldable pub sub_table : ℕ → FileMap → Tool FileMap
sub_table d_idx f = do
  b ← balloc
  pure (record f { dindirect_addrs = upd f.dindirect_addrs d_idx b })

unfoldable pub next_table : ℕ → FileMap → Tool FileMap
next_table d_idx f = do
  flush_table f f.active_d_idx
  let f' = record f { dsub_addrs = no_addrs; active_d_idx = some d_idx }
  if f.dindirect_addrs d_idx == 0 then sub_table d_idx f' else pure f'

abbrev pub is_active : Option ℕ → ℕ → Bool
is_active none d_idx = false
is_active (some d) d_idx = d == d_idx

unfoldable pub place_dindirect : ℕ → ℕ → FileMap → Tool FileMap
place_dindirect dfbn db f = do
  f ← if f.addrs (ndirect + 1) == 0 then top_table f else pure f
  f ←
      if is_active f.active_d_idx (dfbn / nindirect)
      then pure f
      else next_table (dfbn / nindirect) f
  pure (record f { dsub_addrs = upd f.dsub_addrs (dfbn % nindirect) db })

unfoldable pub place : ℕ → FileMap → Tool FileMap
place db f =
    if ltb f.block_index ndirect
    then pure (record f { addrs = upd f.addrs f.block_index db })
    else if ltb (f.block_index - ndirect) nindirect
    then place_indirect db f
    else if leb ndindirect (f.block_index - ndirect - nindirect)
    then exit
    else place_dindirect (f.block_index - ndirect - nindirect) db f

-- `fread` of a block; the source leaves the bytes behind the file's end as they are on its stack, here 0.
abbrev pub file_buf : List ℕ → Bytes
file_buf contents o = if ltb o bsize then get_or contents o 0 else 0

unfoldable pub add_block : List ℕ → FileMap → Tool FileMap
add_block contents f = do
  db ← balloc
  write_block db (file_buf contents)
  f ← place db (record f { size = f.size + length (take bsize contents) })
  pure (record f { block_index = f.block_index + 1 })

-- Each round takes a block of what is left.
unfoldable pub add_blocks : ℕ → List ℕ → FileMap → Tool FileMap
add_blocks zero contents f = pure f
add_blocks (suc rounds) [] f = pure f
add_blocks (suc rounds) (c ∷ contents) f = do
  f ← add_block (c ∷ contents) f
  add_blocks rounds (drop bsize (c ∷ contents)) f

unfoldable pub flush_top : FileMap → Tool (Unit {0})
flush_top f = do
  write_block (f.addrs (ndirect + 1)) (table_bytes f.dindirect_addrs)
  flush_table f f.active_d_idx

-- The tables that are left to write.
unfoldable pub flush_tables : FileMap → Tool (Unit {0})
flush_tables f = do
  if f.indirect_block == 0
      then pure tt
      else write_block f.indirect_block (table_bytes f.indirect_addrs)
  if f.addrs (ndirect + 1) == 0 then pure tt else flush_top f

-- The blocks of a file; a block has at least a byte.
unfoldable pub add_contents : List ℕ → Tool FileMap
add_contents contents = do
  f ← add_blocks (length contents) contents empty_map
  flush_tables f
  pure f
