-- ===== src/Devices.antt =====
-- The system calls on the console, the kernel's messages, the keyboard and the frame buffer: cases of
-- handle_syscall of kernel/kernel.c. `t1` is the page table in force.
pub mod Effects
use dmaos.Base.{
  ℕ, ◌+◌, ◌*◌, ◌/◌, ◌%◌, ◌^◌, ◌==◌, Bool, if◌then◌else◌, ◌&&◌, ◌||◌, not, Option, none, some, List,
  [], ◌∷◌, ◌++◌, add32, min, ℤ, pos, signed32,
}
use dmaos.Machine.{Kernel, Queue, M, ok, waiting, stop, pure, ◌>>=◌, ◌>>◌, get_state, modify}
use dmaos.Machine.Consts.{err_invalid_argument, minus_one}
use dmaos.Fd.{count_of}
use dmaos.PageTable.{entry_has, slot, vpn1, leaf, page_v}
use dmaos.UserMem.{user_byte, validate_user_write_buffer}
use dmaos.UserCopy.{store, is_pos, int_bytes}
use dmaos.Io.{put_out, bytes_out, set_input}
use dmaos.Input.{virtio_input_poll_event}
use dmaos.Frame.{present}

-- The byte that the console shows; `a0` is left as it is.
unfoldable pub sys_putchar : ℕ → M ℤ
sys_putchar ch = do put_out (ch % 256 ∷ []); pure (signed32 ch)

unfoldable pub sys_getchar : M ℤ
sys_getchar k = elim k.input [ [] ↦ waiting | ch ∷ input ↦ ok ch (set_input input k) ]

-- An address in a page that is mapped.
abbrev pub is_mapped : (ℕ → ℕ) → ℕ → ℕ → Bool
is_mapped words t1 va =
    entry_has (words (slot t1 (vpn1 va))) page_v && entry_has (leaf words t1 va) page_v

-- A load of a `uint32_t`, or `none` where it faults.
abbrev pub load_word : (ℕ → ℕ) → ℕ → ℕ → Option ℕ
load_word words t1 va =
    if is_mapped words t1 va && is_mapped words t1 (add32 va 3)
    then some (
        user_byte words t1 va
        + 256 * user_byte words t1 (add32 va 1)
        + 65536 * user_byte words t1 (add32 va 2)
        + 16777216 * user_byte words t1 (add32 va 3))
    else none

module _ (t1 : ℕ) where
  unfoldable pub kmesg_into : ℕ → ℕ → M ℤ
  kmesg_into buf limit = do
    k ← get_state
    let n = min limit k.kmesg.len
    store t1 buf (bytes_out k.kmesg.buf n 0)
    pure (pos n)

  unfoldable pub sys_kmesg : ℕ → ℤ → M ℤ
  sys_kmesg buf limit = do
    k ← get_state
    if is_pos limit && validate_user_write_buffer k.words t1 buf (count_of limit)
        then kmesg_into buf (count_of limit)
        else pure minus_one

  -- A key goes to `*code` and `*pressed`.
  unfoldable pub store_key : ℕ → ℕ → Option (ℕ × ℕ) → M ℤ
  store_key codeptr pressedptr none = pure (pos 0)
  store_key codeptr pressedptr (some (code, pressed)) = do
    store t1 codeptr (code % 256 ∷ code / 256 % 256 ∷ [])
    store t1 pressedptr (int_bytes pressed)
    pure (pos 1)

  unfoldable pub poll_into : ℕ → ℕ → M ℤ
  poll_into codeptr pressedptr = do
    k ← get_state
    let (key, vq) = virtio_input_poll_event k.used k.input_dev
    modify (λ k. record k { input_dev = vq })
    store_key codeptr pressedptr key

  unfoldable pub sys_input_poll : ℕ → ℕ → M ℤ
  sys_input_poll codeptr pressedptr = do
    k ← get_state
    if validate_user_write_buffer k.words t1 codeptr 2
          && validate_user_write_buffer k.words t1 pressedptr 4
        then poll_into codeptr pressedptr
        else pure err_invalid_argument

  -- A load that faults ends in PANIC.
  unfoldable pub show_picture : Option (ℕ → ℕ) → M ℤ
  show_picture none = stop
  show_picture (some fb) = do modify (λ k. record k { framebuffer = fb }); pure (pos 0)

  unfoldable pub sys_present_framebuffer : ℕ → ℕ → ℕ → M ℤ
  sys_present_framebuffer user_fb width height = do
    k ← get_state
    if (width == 0 || height == 0)
          || not (validate_user_write_buffer k.words t1 user_fb (width * height % 2 ^ 32))
        then pure err_invalid_argument
        else show_picture (
            present (λ i. load_word k.words t1 ((user_fb + 4 * i) % 2 ^ 32)) width height
              k.framebuffer)
