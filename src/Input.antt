-- ===== src/Input.antt =====
-- The keyboard of kernel/virtio.c: the queue that virtio_input_init sets up and
-- virtio_input_poll_event. What the device writes, its used ring and the events in the buffers, is an
-- argument.
pub mod Drain
use dmaos.Base.{ℕ, ◌+◌, ◌%◌, ◌^◌, ltb, ◌==◌, if◌then◌else◌, Option, none, some, upd}
use dmaos.Machine.{InputEvent, Used, Queue}

abbrev pub virtq_entry_num : ℕ
virtq_entry_num = 16

abbrev pub ev_key : ℕ
ev_key = 1

-- The queue at the end of `virtio_input_init`: all of its buffers are available.
unfoldable pub virtio_input_init : Queue
virtio_input_init = record {
  avail_ring = λ i. i;
  avail_index = virtq_entry_num;
  last_used_index = 0;
}

-- The buffer `desc_idx` has been read and is available again; both indices are of 16 bits.
unfoldable pub give_back : ℕ → Queue → Queue
give_back desc_idx vq = record {
  avail_ring = upd vq.avail_ring (vq.avail_index % virtq_entry_num) desc_idx;
  avail_index = (vq.avail_index + 1) % 2 ^ 16;
  last_used_index = (vq.last_used_index + 1) % 2 ^ 16;
}

-- The code of a key, and 1 if it was pressed.
unfoldable pub key_of : InputEvent → Option (ℕ × ℕ)
key_of evt =
    if evt.event_type == ev_key then some (evt.code, if ltb 0 evt.value then 1 else 0) else none

unfoldable pub virtio_input_poll_event : Used → Queue → Option (ℕ × ℕ) × Queue
virtio_input_poll_event used vq =
    let desc_idx = used.id (vq.last_used_index % virtq_entry_num) in
    if vq.last_used_index == used.index
    then (none, vq)
    else (key_of (used.events desc_idx), give_back desc_idx vq)
