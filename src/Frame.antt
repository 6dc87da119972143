-- ===== src/Frame.antt =====
-- The frame buffer: the scaling loops of SYSCALL_PRESENT_FRAMEBUFFER in handle_syscall of
-- kernel/kernel.c. Coordinates advance in 16.16 fixed point.
pub mod Pixels
use dmaos.Base.{
  ℕ, zero, suc, ◌+◌, ◌-◌, ◌*◌, ◌/◌, ◌%◌, ◌^◌, leb, if◌then◌else◌, Option, none, some, add32, upd,
}

abbrev pub fb_width : ℕ
fb_width = 1280

abbrev pub fb_height : ℕ
fb_height = 800

-- `(dim << 16) / fb_dim`.
abbrev pub step_of : ℕ → ℕ → ℕ
step_of dim fb_dim = dim * 65536 % 2 ^ 32 / fb_dim

-- The coordinate for an accumulator, at most the last one.
abbrev pub coordinate : ℕ → ℕ → ℕ
coordinate fp dim = if leb dim (fp / 65536) then dim - 1 else fp / 65536

-- What follows a load or a row; nothing does after a fault.
abbrev pub then_on {ℓ} : {A : Type ℓ} → Option A → (A → Option (ℕ → ℕ)) → Option (ℕ → ℕ)
then_on none next = none
then_on (some a) next = next a

-- The pixels from column `dst` of the frame buffer on, of a line of the program's picture; `none` where a
-- load faults.
unfoldable pub copy_row : (ℕ → Option ℕ) → ℕ → ℕ → ℕ → ℕ → ℕ → (ℕ → ℕ) → Option (ℕ → ℕ)
copy_row line width step zero dst fp fb = some fb
copy_row line width step (suc rounds) dst fp fb =
    then_on (line (coordinate fp width))
      (λ v. copy_row line width step rounds (dst + 1) (add32 fp step) (upd fb dst v))

-- The line of the picture from which a row is taken, `&user_fb[src_y * user_fb_width]`.
abbrev pub line_at : (ℕ → Option ℕ) → ℕ → ℕ → ℕ → Option ℕ
line_at load width src_y src_x = load (src_y * width % 2 ^ 32 + src_x)

-- The rows from `y` on, of `columns` pixels each.
unfoldable pub copy_rows : (ℕ → Option ℕ) → ℕ → ℕ → ℕ → ℕ → ℕ → ℕ → (ℕ → ℕ) → Option (ℕ → ℕ)
copy_rows load width height columns zero y fp fb = some fb
copy_rows load width height columns (suc rounds) y fp fb =
    then_on
      (copy_row (line_at load width (coordinate fp height)) width (step_of width columns) columns
        (y * columns) 0 fb)
      (λ fb'.
        copy_rows load width height columns rounds (suc y) (add32 fp (step_of height fb_height))
          fb')

unfoldable pub present : (ℕ → Option ℕ) → ℕ → ℕ → (ℕ → ℕ) → Option (ℕ → ℕ)
present load width height fb = copy_rows load width height fb_width fb_height 0 0 fb
