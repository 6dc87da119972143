-- ===== src/Checks/Shell.antt =====
-- The shell, user/sh/shell.c, on small inputs.
use dmaos.Machine.Consts.{max_path, minus_one}
use dmaos.Base.{
  Bytes, ◌==◌, take, ltb, length, if◌then◌else◌, ℕ, ◌≡◌, refl, true, some, List, [], ◌∷◌, ◌++◌, inr,
  arith, ℤ, pos, Bool,
}
use dmaos.Printf.{unsigned_digits}
use dmaos.Normalize.{ends_open}
use dmaos.Shell.Format.{quote, print_formatted}
use dmaos.Shell.Format.Text.{Piece, plain, newline, cwd_tag, style_tag, blue, source, shown}
use dmaos.Shell.Format.Pieces.{print_formatted-shown}
use dmaos.Shell.Config.{path_dirs}
use dmaos.Shell.Config.Fields.{fields, nonempty, path_dirs-fields}
use dmaos.Shell.Line.{Line, Entered, read_line}
use dmaos.Shell.Line.Screen.{
  line_bytes, edited, backwards, Screen, Shows, show_bytes, read_line-Shows,
}
use dmaos.Shell.Cursor.{get_cursor_column}
use dmaos.Shell.Cursor.Reply.{get_cursor_column-reply}
use dmaos.Shell.Run.{search, start_command, wait_for, full_path, with_args}
use dmaos.Shell.Run.Short.{search-short}
use dmaos.Checks.{bin_path}

-- "a\n<cwd><blue>".
abbrev prompt : List Piece
prompt = plain b'a' ∷ newline ∷ cwd_tag ∷ style_tag blue ∷ []

print_formatted-shown_example :
    print_formatted (quote ∷ (source prompt ++ (quote ∷ []))) bin_path ≡ shown bin_path prompt
print_formatted-shown_example =
    print_formatted-shown prompt bin_path ((refl, refl), (tt, (tt, (tt, tt))))

path_dirs-fields_example :
    path_dirs 32 (b':' ∷ b'a' ∷ b':' ∷ b':' ∷ b'b' ∷ [])
    ≡ take 32 (nonempty (fields (b':' ∷ b'a' ∷ b':' ∷ b':' ∷ b'b' ∷ [])))
path_dirs-fields_example = path_dirs-fields 32 (b':' ∷ b'a' ∷ b':' ∷ b':' ∷ b'b' ∷ [])

abbrev empty_line : Line
empty_line = record { buf = λ _. 0; i = 0 }

-- A prompt "> ".
abbrev prompted : Bytes
prompted j = if j == 0 then b'>' else b' '

abbrev blank_screen : Screen
blank_screen = record { cells = prompted; col = 2 }

-- "lx", a key that deletes, and "s".
abbrev typed : List ℕ
typed = b'l' ∷ b'x' ∷ 127 ∷ b's' ∷ []

read_line-Shows_example :
    (e : Entered) × (read_line (typed ++ (13 ∷ b'q' ∷ [])) empty_line ≡ some e)
    × (e.rest ≡ b'q' ∷ [])
    × ((line_bytes e.line ≡ b's' ∷ b'l' ∷ [])
        × Shows 2 prompted e.line (show_bytes e.echo blank_screen))
unfolding edited backwards
read_line-Shows_example =
    read_line-Shows 2 prompted typed (b'q' ∷ []) empty_line blank_screen
      (inr (omega arith), (inr (omega arith), (inr (omega arith), (inr (omega arith), tt))))
      (record {
        cursor = refl;
        prompt = λ j lt. refl;
        text = λ j lt. absurd (omega arith);
        blank = λ j le. ground arith;
        fits = omega arith;
      })

get_cursor_column-reply_example :
    get_cursor_column
      (27 ∷ b'[' ∷ (unsigned_digits 24 ++ (b';' ∷ (unsigned_digits 80 ++ (b'R' ∷ [])))))
    ≡ some (pos 80, [])
get_cursor_column-reply_example = get_cursor_column-reply 24 80 [] (omega arith) (omega arith)

-- A machine that keeps what was started, where every path is a file and every spawn works.
abbrev any_file : List ℕ → List (List ℕ) → Bool × List (List ℕ)
any_file path w = (true, w)

abbrev any_spawn : List ℕ → List (List ℕ) → ℤ × List (List ℕ)
any_spawn cmdline w = (pos 2, cmdline ∷ w)

abbrev no_wait : ℤ → List (List ℕ) → List (List ℕ)
no_wait pid w = w

abbrev no_print : List ℕ → List (List ℕ) → List (List ℕ)
no_print s w = w

-- "ls -l" with "/bin" as the only directory.
abbrev found_ls : Bool × List (List ℕ)
unfolding search start_command wait_for full_path with_args ends_open
found_ls =
    search any_file any_spawn no_wait no_print (b'l' ∷ b's' ∷ []) (b'-' ∷ b'l' ∷ []) (bin_path ∷ [])
      []

found_ls-started :
    found_ls
    ≡ (true, (b'/' ∷ b'b' ∷ b'i' ∷ b'n' ∷ b'/' ∷ b'l' ∷ b's' ∷ b' ' ∷ b'-' ∷ b'l' ∷ []) ∷ [])
unfolding found_ls
found_ls-started = refl

-- A machine that finds and starts only what has at most 255 bytes.
abbrev short_file : List ℕ → List (List ℕ) → Bool × List (List ℕ)
short_file path w = (ltb (length path) max_path, w)

abbrev short_spawn : List ℕ → List (List ℕ) → ℤ × List (List ℕ)
short_spawn cmdline w =
    if ltb (length cmdline) max_path then (pos 2, cmdline ∷ w) else (minus_one, w)

search-short_example :
    search any_file any_spawn no_wait no_print
      (b'l' ∷ b's' ∷ [])
      (b'-' ∷ b'l' ∷ [])
      (bin_path ∷ [])
      []
    ≡ search short_file short_spawn no_wait no_print
        (b'l' ∷ b's' ∷ [])
        (b'-' ∷ b'l' ∷ [])
        (bin_path ∷ [])
        []
search-short_example =
    search-short any_file short_file any_spawn short_spawn no_wait no_print (λ s w h. ground arith)
      (λ s w h. ground arith) (b'l' ∷ b's' ∷ []) (b'-' ∷ b'l' ∷ []) (bin_path ∷ []) []
