-- ===== src/Checks/Strings.antt =====
-- The functions of kernel/stdlib.c on small strings and buffers, and fs_normalize_path of kernel/fs.c.
use dmaos.Machine.Consts.{max_path}
use dmaos.Names.{skip_slashes, component, after_component}
use dmaos.Normalize.{fs_normalize_path, joined, tokens_of, add_token, drop_token, ends_open}
use dmaos.Normalize.Spell.{path_length}
use dmaos.Normalize.Again.{found_tokens, fs_normalize_path-again}
use dmaos.Base.{ℕ, ◌≡◌, ◌↔◌, some, true, refl, List, [], ◌∷◌}
use dmaos.Str.{strcmp, strstr, is_zero}
use dmaos.Base.{arith, copy_bytes}
use dmaos.Str.{memmove, strstr}
use dmaos.Str.Memory.{memmove-copy_bytes}
use dmaos.Str.Compare.{IsString, FirstAt, Starts, strstr-FirstAt, strcmp-zero_iff}
use dmaos.Checks.{root_bytes, bin_path}

memmove-copy_bytes_example : memmove root_bytes 3 2 3 5 ≡ copy_bytes root_bytes 3 root_bytes 2 3 5
memmove-copy_bytes_example = memmove-copy_bytes root_bytes 3 2 3 5

abbrev word_bin : List ℕ
word_bin = b'b' ∷ b'i' ∷ b'n' ∷ []

word_bin-IsString : IsString word_bin
word_bin-IsString = (ground arith, (ground arith, (ground arith, tt)))

slash_bin-IsString : IsString bin_path
slash_bin-IsString = (ground arith, (ground arith, (ground arith, (ground arith, tt))))

strstr-FirstAt_example :
    (strstr bin_path word_bin ≡ some word_bin) ↔ FirstAt (Starts word_bin) bin_path word_bin
strstr-FirstAt_example =
    strstr-FirstAt bin_path word_bin word_bin slash_bin-IsString word_bin-IsString

-- "b/../t".
abbrev back_and_on : List ℕ
back_and_on = b'b' ∷ b'/' ∷ b'.' ∷ b'.' ∷ b'/' ∷ b't' ∷ []

back_and_on-IsString : IsString back_and_on
back_and_on-IsString = (
  ground arith,
  (ground arith, (ground arith, (ground arith, (ground arith, (ground arith, tt))))),
)

-- "bin" and "t".
two_found : path_length (found_tokens bin_path back_and_on) ≡ 6
unfolding path_length joined tokens_of add_token drop_token ends_open skip_slashes component
    after_component strcmp
two_found = refl

fs_normalize_path-again_example :
    fs_normalize_path back_and_on (fs_normalize_path bin_path back_and_on max_path) max_path
    ≡ fs_normalize_path bin_path back_and_on max_path
fs_normalize_path-again_example =
    fs_normalize_path-again bin_path back_and_on back_and_on max_path slash_bin-IsString
      back_and_on-IsString (omega arith) (omega arith) (omega (arith, two_found))

abbrev word_bit : List ℕ
word_bit = b'b' ∷ b'i' ∷ b't' ∷ []

strcmp-zero_iff_example : (is_zero (strcmp word_bin word_bit) ≡ true) ↔ (word_bin ≡ word_bit)
strcmp-zero_iff_example =
    strcmp-zero_iff word_bin word_bit word_bin-IsString
      (ground arith, (ground arith, (ground arith, tt)))
