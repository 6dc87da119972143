-- ===== src/Input/Drain.antt =====
-- Repeated calls of virtio_input_poll_event of kernel/virtio.c.
use dmaos.Machine.{Queue, Used}
use dmaos.Base.{
  ℕ, zero, suc, ◌+◌, ◌%◌, ◌^◌, ◌<◌, ◌≡◌, refl, ap, ◌∙◌, ◌==◌, ==_ne, false, true, Option, none,
  List, [], ◌∷◌, arith,
}
use native.Mathlib.Nat.{mod-lt}
use dmaos.Input.{key_of, give_back, virtio_input_poll_event, virtio_input_init, virtq_entry_num}

-- What the driver and the device agree on: the driver has made 16 buffers more available than it has
-- read, counted modulo 2 ^ 16.
pub record IsBalanced (vq : Queue) : Type 0 where
  pub bounded : vq.last_used_index < 2 ^ 16
  pub ahead : vq.avail_index ≡ (vq.last_used_index + virtq_entry_num) % 2 ^ 16

pub init-IsBalanced : IsBalanced virtio_input_init
unfolding virtio_input_init
init-IsBalanced = record { bounded = omega arith; ahead = refl }

give_back-IsBalanced : (i : ℕ) (vq : Queue) → IsBalanced vq → IsBalanced (give_back i vq)
unfolding give_back
give_back-IsBalanced i vq b = record {
  bounded = mod-lt (vq.last_used_index + 1) (omega arith);
  ahead = let x = b.ahead in let y = b.bounded in omega arith;
}

-- The answers of `rounds` calls in a row, and the queue after them.
unfoldable pub poll_all : ℕ → Used → Queue → List (Option (ℕ × ℕ)) × Queue
poll_all zero used vq = ([], vq)
poll_all (suc rounds) used vq =
    let (key, vq') = virtio_input_poll_event used vq in
    let (keys, vq'') = poll_all rounds used vq' in (key ∷ keys, vq'')

-- The keys of the `n` events from number `i` on, counted without bound.
unfoldable pub keys_from : ℕ → Used → ℕ → List (Option (ℕ × ℕ))
keys_from zero used i = []
keys_from (suc n) used i =
    key_of (used.events (used.id (i % virtq_entry_num))) ∷ keys_from n used (i + 1)

-- A number that counts events may be taken modulo 2 ^ 16.
keys_from-mod :
    (n : ℕ) (used : Used) (i j : ℕ)
    → i % 2 ^ 16 ≡ j % 2 ^ 16
    → keys_from n used i ≡ keys_from n used j
unfolding keys_from
keys_from-mod zero used i j h = refl
keys_from-mod (suc n) used i j h =
    let place : i % virtq_entry_num ≡ j % virtq_entry_num = omega arith in
    rw place (
      ap (λ l. key_of (used.events (used.id (j % virtq_entry_num))) ∷ l)
        (keys_from-mod n used (i + 1) (j + 1) (omega arith)))

-- With `n` events waiting, `n` calls of `virtio_input_poll_event` give their keys in the order in which
-- the device has put them out, also where the 16-bit indices wrap around; then none is left, a further
-- call gives none and changes nothing, and the driver has again made 16 buffers more available than it has
-- read.
pub poll_all-keys_from :
    (n : ℕ) (used : Used) (vq : Queue)
    → n < 2 ^ 16
    → IsBalanced vq
    → used.index ≡ (vq.last_used_index + n) % 2 ^ 16
    → ((poll_all n used vq).0 ≡ keys_from n used vq.last_used_index)
      × ((virtio_input_poll_event used (poll_all n used vq).1 ≡ (none, (poll_all n used vq).1))
          × IsBalanced (poll_all n used vq).1)
unfolding poll_all keys_from virtio_input_poll_event give_back
poll_all-keys_from zero used vq lt b h =
    let x = b.bounded in
    let e : (vq.last_used_index == used.index) ≡ true = ground arith in (refl, (rw e refl, b))
poll_all-keys_from (suc n) used vq lt b h =
    let x = b.bounded in
    let e : (vq.last_used_index == used.index) ≡ false =
      ==_ne vq.last_used_index used.index (λ z. omega arith) in
    let i = used.id (vq.last_used_index % virtq_entry_num) in
    let (keys, (none_left, balanced)) =
      poll_all-keys_from n used (give_back i vq) (omega arith) (give_back-IsBalanced i vq b)
        (omega arith) in
    rw e (
      ap (λ l. key_of (used.events i) ∷ l) (keys ∙ keys_from-mod n used _ _ (omega arith)),
      (none_left, balanced),
    )
