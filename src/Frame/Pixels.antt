-- ===== src/Frame/Pixels.antt =====
-- The pixels that SYSCALL_PRESENT_FRAMEBUFFER of kernel/kernel.c puts on the screen.
use dmaos.Base.{
  ℕ, zero, suc, ◌+◌, ◌*◌, ◌%◌, ◌^◌, ◌≤◌, ◌<◌, ◌≡◌, ◌⊎◌, inl, inr, refl, Option, some, add32, upd,
  upd_self, upd_ne, arith, ◌∙◌, ◌/◌, ◌-◌, min,
}
use native.Mathlib.Nat.{mul-le-mul_right, div-mul-le_self, mul_comm, mod-eq_of_lt}
use dmaos.Frame.{fb_width, fb_height, step_of, coordinate, copy_row, line_at, copy_rows, present}

-- The accumulator of a loop in its round `x` has not wrapped.
add32-step : (n x step : ℕ) → n * step < 2 ^ 32 → x < n → add32 (x * step) step ≡ suc x * step
add32-step n x step small lt = let le = mul-le-mul_right step lt in omega arith

coordinate-lt : (fp dim : ℕ) → 0 < dim → coordinate fp dim < dim
coordinate-lt fp dim pos = ground arith

-- What a row puts into the frame buffer from `dst` on, and what it leaves.
pub record IsRow (line : ℕ → ℕ) (width step n x dst : ℕ) (fb fb' : ℕ → ℕ) : Type 0 where
  pub drawn : (j : ℕ) → j < n → fb' (dst + j) ≡ line (coordinate ((x + j) * step) width)
  pub kept : (i : ℕ) → (i < dst) ⊎ (dst + n ≤ i) → fb' i ≡ fb i

IsRow-cons :
    (line : ℕ → ℕ) (width step n x dst : ℕ) (fb fb' : ℕ → ℕ)
    → IsRow line width step n
        (suc x)
        (dst + 1)
        (upd fb dst (line (coordinate (x * step) width)))
        fb'
    → IsRow line width step (suc n) x dst fb fb'
IsRow-cons line width step n x dst fb fb' row = record {
  drawn = drawn;
  kept = λ i out.
      row.kept i (elim out [ inl a ↦ inl (omega arith) | inr b ↦ inr (omega arith) ])
      ∙ upd_ne fb dst i _ (λ e. omega (arith, out));
}
  where
    drawn : (j : ℕ) → j < suc n → fb' (dst + j) ≡ line (coordinate ((x + j) * step) width)
    drawn zero lt =
        let a : dst + 0 ≡ dst = omega arith in
        let b : x + 0 ≡ x = omega arith in
        rw (a, b) (row.kept dst (inl (omega arith)) ∙ upd_self fb dst _)
    drawn (suc j) lt =
        let a : dst + suc j ≡ dst + 1 + j = omega arith in
        let b : x + suc j ≡ suc x + j = omega arith in rw (a, b) (row.drawn j (omega arith))

copy_row-IsRow :
    (load : ℕ → Option ℕ) (line : ℕ → ℕ) (width step columns rounds x dst : ℕ) (fb : ℕ → ℕ)
    → 0 < width
    → ((c : ℕ) → c < width → load c ≡ some (line c))
    → columns * step < 2 ^ 32
    → x + rounds ≡ columns
    → (fb' : ℕ → ℕ) × (copy_row load width step rounds dst (x * step) fb ≡ some fb')
      × IsRow line width step rounds x dst fb fb'
unfolding copy_row
copy_row-IsRow load line width step columns zero x dst fb pos loads small at =
    (fb, refl, record { drawn = λ j lt. absurd (omega arith); kept = λ i out. refl })
copy_row-IsRow load line width step columns (suc rounds) x dst fb pos loads small at =
    let c = coordinate (x * step) width in
    let (fb', run, row) =
      copy_row-IsRow load line width step columns rounds (suc x) (dst + 1) (upd fb dst (line c)) pos
        loads small (omega arith) in
    (
      fb',
      rw
          (
            loads c (coordinate-lt (x * step) width pos),
            add32-step columns x step small (omega arith),
          )
          run,
      IsRow-cons line width step rounds x dst fb fb' row,
    )

-- Where the pixels of a picture of `width * height` stand in it for a pixel of the screen.
unfoldable pub source_index : ℕ → ℕ → ℕ → ℕ → ℕ → ℕ
source_index width height columns x y =
    coordinate (y * step_of height fb_height) height * width
    + coordinate (x * step_of width columns) width

-- What the rows from `y` on put into the frame buffer.
abbrev pub IsPicture : (ℕ → ℕ) → ℕ → ℕ → ℕ → ℕ → ℕ → (ℕ → ℕ) → (ℕ → ℕ) → Type 0
IsPicture pixel width height columns n y fb fb' =
    ((i j : ℕ)
      → i < n
      → j < columns
      → fb' ((y + i) * columns + j) ≡ pixel (source_index width height columns j (y + i)))
    × ((i : ℕ) → i < y * columns → fb' i ≡ fb i)

-- A row, and the rows behind it.
picture-cons :
    (pixel : ℕ → ℕ) (width height columns n y : ℕ) (fb1 fb2 : ℕ → ℕ)
    → ((j : ℕ)
        → j < columns
        → fb1 (y * columns + j) ≡ pixel (source_index width height columns j y))
    → ((i j : ℕ)
        → i < n
        → j < columns
        → fb2 ((suc y + i) * columns + j) ≡ pixel (source_index width height columns j (suc y + i)))
    → ((i : ℕ) → i < suc y * columns → fb2 i ≡ fb1 i)
    → (i j : ℕ) → i < suc n
    → j < columns
    → fb2 ((y + i) * columns + j) ≡ pixel (source_index width height columns j (y + i))
picture-cons pixel width height columns n y fb1 fb2 row drawn kept zero j lt lt' =
    let a : y + 0 ≡ y = omega arith in
    let next : suc y * columns ≡ y * columns + columns = omega arith in
    rw a (kept (y * columns + j) (omega arith) ∙ row j lt')
picture-cons pixel width height columns n y fb1 fb2 row drawn kept (suc i) j lt lt' =
    let a : y + suc i ≡ suc y + i = omega arith in rw a (drawn i j (omega arith) lt')

step_of-fits : (dim fb_dim : ℕ) → fb_dim * step_of dim fb_dim < 2 ^ 32
step_of-fits dim fb_dim =
    let x = div-mul-le_self (dim * 65536 % 2 ^ 32) fb_dim in
    let y = mul_comm fb_dim (step_of dim fb_dim) in omega arith

module _ (load : ℕ → Option ℕ) (pixel : ℕ → ℕ) (width height : ℕ) (wide : 0 < width)
    (high : 0 < height) (small : width * height < 2 ^ 32)
    (loads : (i : ℕ) → i < width * height → load i ≡ some (pixel i)) where
  -- A line of the picture.
  line_at-loads :
      (fp c : ℕ)
      → c < width
      → line_at load width (coordinate fp height) c
        ≡ some (pixel (coordinate fp height * width + c))
  line_at-loads fp c lt =
      let y = coordinate fp height in
      let below = mul-le-mul_right width (coordinate-lt fp height high) in
      let same = mul_comm width height in
      let e : y * width % 2 ^ 32 ≡ y * width =
        mod-eq_of_lt {n = y * width} {m = 2 ^ 32} (omega arith) in
      rw e (loads (y * width + c) (omega arith))

  source_index-lt : (columns x y : ℕ) → source_index width height columns x y < width * height
  unfolding source_index
  source_index-lt columns x y =
      let fp = y * step_of height fb_height in
      let below = mul-le-mul_right width (coordinate-lt fp height high) in
      let same = mul_comm width height in
      let c = coordinate-lt (x * step_of width columns) width wide in omega arith

  copy_rows-IsPicture :
      (columns rounds y : ℕ) (fb : ℕ → ℕ)
      → y + rounds ≡ fb_height
      → (fb' : ℕ → ℕ) × (copy_rows load width height columns rounds y
            (y * step_of height fb_height)
            fb
          ≡ some fb')
        × IsPicture pixel width height columns rounds y fb fb'
  unfolding copy_rows source_index
  copy_rows-IsPicture columns zero y fb at =
      (fb, refl, (λ i j lt. absurd (omega arith), λ i lt. refl))
  copy_rows-IsPicture columns (suc rounds) y fb at =
      let fp = y * step_of height fb_height in
      let src_y = coordinate fp height in
      let (fb1, run1, row) =
        copy_row-IsRow (line_at load width src_y) (λ c. pixel (src_y * width + c)) width
          (step_of width columns) columns columns 0 (y * columns) fb wide (line_at-loads fp)
          (step_of-fits width columns) (omega arith) in
      let zero_fp : 0 * step_of width columns ≡ 0 = omega arith in
      let (fb2, run2, (drawn, kept)) =
        copy_rows-IsPicture columns rounds (suc y) fb1 (omega arith) in
      let acc =
        add32-step fb_height y (step_of height fb_height) (step_of-fits height fb_height)
          (omega arith) in
      let next : suc y * columns ≡ y * columns + columns = omega arith in
      (
        fb2,
        rw (rw zero_fp at run1, acc) run2,
        (
          picture-cons pixel width height columns rounds y fb1 fb2
              (λ j lt.
                let z : 0 + j ≡ j = omega arith in unfold source_index in rw z at (row.drawn j lt))
              drawn kept,
          λ i lt. kept i (omega arith) ∙ row.kept i (inl lt),
        ),
      )

  present-source_index :
      (fb : ℕ → ℕ)
      → (fb' : ℕ → ℕ) × (present load width height fb ≡ some fb')
        × ((x y : ℕ)
            → x < fb_width
            → y < fb_height
            → (fb' (y * fb_width + x) ≡ pixel (source_index width height fb_width x y))
              × (source_index width height fb_width x y < width * height))
  unfolding present
  present-source_index fb =
      let (fb', run, (drawn, kept)) = copy_rows-IsPicture fb_width fb_height 0 fb (omega arith) in
      let zero_fp : 0 * step_of height fb_height ≡ 0 = omega arith in
      (
        fb',
        rw zero_fp at run,
        λ x y lx ly.
            let row : 0 + y ≡ y = omega arith in
            (rw row at (drawn y x ly lx), source_index-lt fb_width x y),
      )

-- Place `x` of `n` on the screen as one of `dim` in the picture: `x` times `dim / n`, in 16.16 fixed
-- point rounded down, and not behind the last one.
abbrev pub scaled : ℕ → ℕ → ℕ → ℕ
scaled dim n x = min (x * (dim * 65536 / n) / 65536) (dim - 1)

scaled-coordinate :
    (dim n x : ℕ) → 0 < dim → dim < 65536 → coordinate (x * step_of dim n) dim ≡ scaled dim n x
scaled-coordinate dim n x pos small =
    let e : dim * 65536 % 2 ^ 32 ≡ dim * 65536 =
      mod-eq_of_lt {n = dim * 65536} {m = 2 ^ 32} (omega arith) in
    rw e (clamped (x * (dim * 65536 / n)) dim pos)
  where
    clamped : (fp dim : ℕ) → 0 < dim → coordinate fp dim ≡ min (fp / 65536) (dim - 1)
    clamped fp dim pos = ground arith

-- A picture of `width * height` pixels that the program can read, fewer than 65536 either way, is shown on
-- the whole screen: the pixel at (x, y) of the 1280 * 800 of the frame buffer becomes the pixel of the
-- picture at (x * width / 1280, y * height / 800), these quotients taken in 16.16 fixed point and rounded
-- down, at most the last ones; no load is outside the picture.
pub present-IsPicture :
    (load : ℕ → Option ℕ) (pixel : ℕ → ℕ) (width height : ℕ) (fb : ℕ → ℕ)
    → 0 < width
    → 0 < height
    → width < 65536
    → height < 65536
    → width * height < 2 ^ 32
    → ((i : ℕ) → i < width * height → load i ≡ some (pixel i))
    → (fb' : ℕ → ℕ) × (present load width height fb ≡ some fb')
      × ((x y : ℕ)
          → x < 1280
          → y < 800
          → fb' (y * 1280 + x) ≡ pixel (scaled height 800 y * width + scaled width 1280 x))
unfolding source_index
present-IsPicture load pixel width height fb wide high narrow low small loads =
    let (fb', run, shows) = present-source_index load pixel width height wide high small loads fb in
    (
      fb',
      run,
      λ x y lx ly.
          rw (scaled-coordinate width 1280 x wide narrow, scaled-coordinate height 800 y high low)
            at (shows x y lx ly).0,
    )
