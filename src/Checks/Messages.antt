-- ===== src/Checks/Messages.antt =====
-- The kernel's messages, kernel/kernel.c, and the user library, user/lib/user.c, on concrete arguments, and
-- the keyboard of kernel/virtio.c.
use dmaos.Machine.{Used}
use dmaos.Machine.{Kmesg}
use dmaos.Input.{ev_key, virtio_input_init, virtio_input_poll_event, key_of}
use dmaos.Input.Drain.{IsBalanced, init-IsBalanced, poll_all, keys_from, poll_all-keys_from}
use dmaos.Base.{
  ℕ, ◌≤◌, negsuc, ◌-◌, ◌^◌, ◌≡◌, refl, some, none, ◌==◌, if◌then◌else◌, List, [], ◌∷◌, ◌++◌, take,
  length, arith,
}
use dmaos.Printf.{
  kmesg_size, format, vprintf, directive, after_width, field_width, align_flag, conversion, decimal,
  unsigned_digits, number_length, count_digits, find_div, digits, padding,
}
use dmaos.Printf.Decimal.{IsNumeral, read_decimal, decimal-read}
use dmaos.Printf.Width.{number_length-decimal}
use dmaos.Printf.Buffer.{IsTerminated, message, vprintf-message}

abbrev no_message : Kmesg
no_message = record { len = 0; buf = λ _. 0 }

no_message-IsTerminated : IsTerminated no_message
no_message-IsTerminated = record { fits = omega arith; ends = refl }

-- The only argument is -42.
abbrev minus_42 : ℕ → ℕ
minus_42 i = 2 ^ 32 - 42

abbrev no_text : ℕ → List ℕ
no_text a = []

-- "x %d".
abbrev x_number : List ℕ
x_number = b'x' ∷ b' ' ∷ b'%' ∷ b'd' ∷ []

-- "x -42".
x_number-format : format minus_42 no_text 4 0 x_number ≡ b'x' ∷ b' ' ∷ b'-' ∷ b'4' ∷ b'2' ∷ []
unfolding format directive after_width field_width align_flag conversion decimal unsigned_digits
    find_div digits padding number_length count_digits
x_number-format = refl

vprintf-message_example :
    IsTerminated (vprintf minus_42 no_text x_number no_message)
    × (message (vprintf minus_42 no_text x_number no_message)
        ≡ message no_message
          ++ take (kmesg_size - 1 - no_message.len) (format minus_42 no_text 4 0 x_number))
    × ((o : ℕ)
        → kmesg_size ≤ o
        → (vprintf minus_42 no_text x_number no_message).buf o ≡ no_message.buf o)
vprintf-message_example =
    vprintf-message minus_42 no_text x_number no_message no_message-IsTerminated

decimal-read_example :
    IsNumeral (decimal (2 ^ 32 - 42)) × (read_decimal (decimal (2 ^ 32 - 42)) ≡ negsuc 41)
decimal-read_example = decimal-read (2 ^ 32 - 42) (omega arith)

number_length-decimal_example : number_length (2 ^ 32 - 42) ≡ length (decimal (2 ^ 32 - 42))
number_length-decimal_example = number_length-decimal (2 ^ 32 - 42) (omega arith)

-- The device has filled buffer 3 with the press of a key and then buffer 1 with an event of type 0.
abbrev two_events : Used
two_events = record {
  index = 2;
  id = λ i. if i == 0 then 3 else 1;
  events = λ b. record { event_type = if b == 3 then ev_key else 0; code = 30; value = 1 };
}

poll_all-keys_from_example :
    ((poll_all 2 two_events virtio_input_init).0
      ≡ keys_from 2 two_events virtio_input_init.last_used_index)
    × ((virtio_input_poll_event two_events (poll_all 2 two_events virtio_input_init).1
          ≡ (none, (poll_all 2 two_events virtio_input_init).1))
        × IsBalanced (poll_all 2 two_events virtio_input_init).1)
unfolding virtio_input_init
poll_all-keys_from_example =
    poll_all-keys_from 2 two_events virtio_input_init (omega arith) init-IsBalanced refl

one_key : keys_from 2 two_events 0 ≡ some (30, 1) ∷ none ∷ []
unfolding keys_from key_of
one_key = refl
