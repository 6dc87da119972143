-- ===== src/Checks/Tool.antt =====
-- The image tool, tools/mkfs.c, and the frame buffer, kernel/kernel.c, on small inputs.
use dmaos.Base.{ℕ, ◌+◌, ◌*◌, ◌<◌, ◌≤◌, ◌≡◌, leb, refl, Option, none, some, [], ◌∷◌, arith}
use dmaos.Bitmap.{bit_clear}
use dmaos.Mkfs.{Mkfs}
use dmaos.Mkfs.Store.{
  disk_size_blocks, balloc, hand_out, mark_allocated, write_block, take_inode, set_inode,
}
use dmaos.Mkfs.Dirs.{
  find_path, last_slash, split_path, add_entry, link_entry, new_dir, make_dir, get_or_create_dir,
}
use dmaos.Mkfs.Contents.{add_block, add_blocks, add_contents, place, flush_tables, flush_table}
use dmaos.Mkfs.Image.{
  Host, no_more, host_file, host_dir, make_image, zeroed, write_all, mark_metadata, write_dirs,
  write_dir, dir_blocks, write_inodes, write_bitmap, make_root, traverse_dir, add_file, open_file,
  store_file, next_path, sb_bmapstart,
}
use dmaos.Mkfs.Layout.{make_image-bit_clear}
use dmaos.Shell.{same}
use dmaos.Frame.{present}
use dmaos.Frame.Pixels.{present-IsPicture, scaled}

-- The file "bin/a" with two bytes.
abbrev one_file : Host
one_file =
    host_dir (b'b' ∷ b'i' ∷ b'n' ∷ []) (host_file (b'a' ∷ []) (some (1 ∷ 2 ∷ [])) no_more) no_more

abbrev image_of : Option (Unit {0} × Mkfs) → Mkfs
image_of none = zeroed
image_of (some (_, s)) = s

made-image : make_image one_file zeroed ≡ some (tt, image_of (make_image one_file zeroed))
unfolding make_image write_all mark_metadata write_dirs write_dir dir_blocks write_inodes
    write_bitmap make_root traverse_dir add_file open_file store_file next_path balloc hand_out
    mark_allocated write_block take_inode set_inode find_path last_slash split_path add_entry
    link_entry new_dir make_dir get_or_create_dir add_block add_blocks add_contents place
    flush_tables flush_table same zeroed
made-image = refl

-- The blocks 7 to 9 hold the file and the two directories.
made-freeblock : (image_of (make_image one_file zeroed)).freeblock ≡ 10
unfolding make_image write_all mark_metadata write_dirs write_dir dir_blocks write_inodes
    write_bitmap make_root traverse_dir add_file open_file store_file next_path balloc hand_out
    mark_allocated write_block take_inode set_inode find_path last_slash split_path add_entry
    link_entry new_dir make_dir get_or_create_dir add_block add_blocks add_contents place
    flush_tables flush_table same zeroed
made-freeblock = refl

abbrev image : Mkfs
image = image_of (make_image one_file zeroed)

make_image-bit_clear_example :
    ((b : ℕ) → bit_clear (image.disk sb_bmapstart) b ≡ leb image.freeblock b)
    × (image.freeblock ≤ disk_size_blocks)
make_image-bit_clear_example = make_image-bit_clear one_file image made-image

-- A picture of two lines of two pixels.
present-IsPicture_example :
    (fb : ℕ → ℕ) × (present (λ i. some i) 2 2 (λ _. 0) ≡ some fb)
    × ((x y : ℕ) → x < 1280 → y < 800 → fb (y * 1280 + x) ≡ scaled 2 800 y * 2 + scaled 2 1280 x)
present-IsPicture_example =
    present-IsPicture (λ i. some i) (λ i. i) 2 2 (λ _. 0) (omega arith) (omega arith) (omega arith)
      (omega arith) (omega arith) (λ i lt. refl)
