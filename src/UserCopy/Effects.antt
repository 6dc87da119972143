-- ===== src/UserCopy/Effects.antt =====
-- The copies to the memory of a user program and the references, kernel/kernel.c.
use dmaos.Base.{ℕ, ◌+◌, List, [], ◌∷◌, arith}
use dmaos.Machine.{modify, Kernel, M}
use dmaos.Machine.Post.{Post}
use dmaos.Inode.Uses.{Keeps, keeps, pure-Keeps, bind-Keeps}
use dmaos.Tables.{Leaves, pure-Leaves, bind-Leaves}
use dmaos.Holders.{IsSound, none_held, sound}
use dmaos.UserCopy.{store, store_byte}

store_byte-Leaves : (t1 va b : ℕ) → Leaves (modify (store_byte t1 va b))
store_byte-Leaves t1 va b = record { same = λ k r k' h. ground arith }

store_byte-Keeps : (t1 va b : ℕ) → Keeps (modify (store_byte t1 va b))
store_byte-Keeps t1 va b = keeps (λ k r k' i h. ground arith)

store-Leaves : (t1 va : ℕ) (bytes : List ℕ) → Leaves (store t1 va bytes)
unfolding store
store-Leaves t1 va [] = pure-Leaves tt
store-Leaves t1 va (b ∷ bytes) =
    bind-Leaves (store_byte-Leaves t1 va b) (λ _. store-Leaves t1 (va + 1) bytes)

store-Keeps : (t1 va : ℕ) (bytes : List ℕ) → Keeps (store t1 va bytes)
unfolding store
store-Keeps t1 va [] = pure-Keeps tt
store-Keeps t1 va (b ∷ bytes) =
    bind-Keeps (store_byte-Keeps t1 va b) (λ _. store-Keeps t1 (va + 1) bytes)

-- Code that keeps the state sound, with nothing held before and after.
abbrev pub Guards : {A : Type 0} → M A → Type 0
Guards m = (k : Kernel) → IsSound none_held k → Post (λ _ k'. IsSound none_held k') (m k)

pub store-Guards : (t1 va : ℕ) (bytes : List ℕ) → Guards (store t1 va bytes)
store-Guards t1 va bytes k s =
    sound ((store-Keeps t1 va bytes).all none_held) (store-Leaves t1 va bytes) s
