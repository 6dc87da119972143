-- ===== src/Devices/Effects.antt =====
-- The system calls on the devices and the references, kernel/kernel.c.
use dmaos.Base.{
  ℕ, ◌*◌, ◌%◌, ◌^◌, ◌==◌, ◌&&◌, ◌||◌, not, Option, none, some, List, [], ◌∷◌, ◌++◌, ◌≡◌, refl,
  subst, ℤ,
}
use dmaos.Io.{put_out, set_input}
use dmaos.Machine.{waiting, Queue, Kernel, modify, ok}
use dmaos.Machine.Post.{Post, returned, panicked, waits, bind, either, result, ok-state}
use dmaos.Holders.{IsSound, none_held, sound}
use dmaos.Inode.Cache.{count}
use dmaos.Inode.Uses.{Keeps, keeps}
use dmaos.Tables.{Leaves, SameTables}
use dmaos.Fd.{count_of}
use dmaos.UserMem.{validate_user_write_buffer}
use dmaos.UserCopy.{is_pos}
use dmaos.UserCopy.Effects.{Guards, store-Guards}
use dmaos.Devices.{
  sys_putchar, sys_getchar, kmesg_into, sys_kmesg, store_key, poll_into, sys_input_poll,
  show_picture, sys_present_framebuffer,
}

-- A change of the state that leaves the tables and the cache alone.
modify-Guards :
    (f : Kernel → Kernel)
    → ((k : Kernel) → SameTables k (f k))
    → ((k : Kernel) (i : ℕ) → count (f k) i ≡ count k i)
    → Guards (modify f)
modify-Guards f same counts k s = sound (kept.all none_held) left s
  where
    kept : Keeps (modify f)
    kept = keeps (λ k r k' i h. subst (λ x. count x i ≡ count k i) (ok-state h) (counts k i))

    left : Leaves (modify f)
    left = record { same = λ k r k' h. subst (λ x. SameTables k x) (ok-state h) (same k) }

set_vq-Guards : (vq : Queue) → Guards (modify (λ k. record k { input_dev = vq }))
set_vq-Guards vq = modify-Guards _ (λ k. (refl, refl, refl, refl)) (λ k i. refl)

set_framebuffer-Guards : (fb : ℕ → ℕ) → Guards (modify (λ k. record k { framebuffer = fb }))
set_framebuffer-Guards fb = modify-Guards _ (λ k. (refl, refl, refl, refl)) (λ k i. refl)

pub sys_putchar-Guards : (ch : ℕ) → Guards (sys_putchar ch)
unfolding sys_putchar put_out
sys_putchar-Guards ch k s = returned (
    result
      (modify-Guards (λ k. record k { output = k.output ++ (ch % 256 ∷ []) })
        (λ k. (refl, refl, refl, refl)) (λ k i. refl) k s)
      refl)

input-IsSound :
    (input : List ℤ) (k : Kernel) → IsSound none_held k → IsSound none_held (set_input input k)
input-IsSound input k s =
    result (modify-Guards (set_input input) (λ k. (refl, refl, refl, refl)) (λ k i. refl) k s) refl

pub sys_getchar-Guards : Guards sys_getchar
unfolding sys_getchar
sys_getchar-Guards k s = go k.input
  where
    go :
        (input : List ℤ)
        → Post
            (λ _ k'. IsSound none_held k')
            (elim input [ [] ↦ waiting | ch ∷ input ↦ ok ch (set_input input k) ])
    go [] = waits
    go (ch ∷ input) = returned (input-IsSound input k s)

module _ (t1 : ℕ) where
  pub sys_kmesg-Guards : (buf : ℕ) (limit : ℤ) → Guards (sys_kmesg t1 buf limit)
  unfolding sys_kmesg kmesg_into
  sys_kmesg-Guards buf limit k s =
      either (is_pos limit && validate_user_write_buffer k.words t1 buf (count_of limit)) _ _
        (bind (store-Guards t1 buf _ k s) (λ _ k' s'. returned s')) (returned s)

  store_key-Guards :
      (codeptr pressedptr : ℕ) (key : Option (ℕ × ℕ)) → Guards (store_key t1 codeptr pressedptr key)
  unfolding store_key
  store_key-Guards codeptr pressedptr none k s = returned s
  store_key-Guards codeptr pressedptr (some (code, pressed)) k s =
      bind (store-Guards t1 codeptr _ k s)
        (λ _ k1 s1. bind (store-Guards t1 pressedptr _ k1 s1) (λ _ k2 s2. returned s2))

  pub sys_input_poll-Guards :
      (codeptr pressedptr : ℕ) → Guards (sys_input_poll t1 codeptr pressedptr)
  unfolding sys_input_poll poll_into
  sys_input_poll-Guards codeptr pressedptr k s =
      either
        (validate_user_write_buffer k.words t1 codeptr 2
          && validate_user_write_buffer k.words t1 pressedptr 4)
        _ _ (store_key-Guards codeptr pressedptr _ _ (result (set_vq-Guards _ k s) refl))
        (returned s)

  show_picture-Guards : (o : Option (ℕ → ℕ)) → Guards (show_picture t1 o)
  unfolding show_picture
  show_picture-Guards none k s = panicked
  show_picture-Guards (some fb) k s = returned (result (set_framebuffer-Guards fb k s) refl)

  pub sys_present_framebuffer-Guards :
      (user_fb width height : ℕ) → Guards (sys_present_framebuffer t1 user_fb width height)
  unfolding sys_present_framebuffer
  sys_present_framebuffer-Guards user_fb width height k s =
      either
        ((width == 0 || height == 0)
          || not (validate_user_write_buffer k.words t1 user_fb (width * height % 2 ^ 32)))
        _ _ (returned s) (show_picture-Guards _ k s)
