-- ===== src/Shell/Line/Screen.antt =====
-- What the terminal shows of the line that main of user/sh/shell.c reads.
use dmaos.Base.{
  sub32, zero, suc, drop, length, ap, ℕ, ◌+◌, ◌-◌, ◌==◌, ◌≡◌, ◌≤◌, ◌<◌, ◌||◌, ◌⊎◌, sym, ◌∙◌, ==_ne,
  ltb, ltb→lt, refl, inl, inr, Bool-cases, if◌then◌else◌, some, List, [], ◌∷◌, ◌++◌, Bytes, upd,
  upd_self, upd_ne, arith,
}
use native.Mathlib.Decide.{ℕ_discrete}
use dmaos.Shell.Line.{Line, edit, Entered, read_line}

-- The cells of the terminal's row, and the column of the cursor.
pub record Screen : Type 0 where
  pub cells : Bytes
  pub col : ℕ

-- A backspace moves the cursor, the bell leaves all as it is, any other byte fills a cell.
unfoldable pub show_byte : ℕ → Screen → Screen
show_byte c s =
    if c == 8
    then record s { col = s.col - 1 }
    else if c == 7
    then s
    else record { cells = upd s.cells s.col c; col = s.col + 1 }

unfoldable pub show_bytes : List ℕ → Screen → Screen
show_bytes [] s = s
show_bytes (c ∷ out) s = show_bytes out (show_byte c s)

-- The terminal shows the line behind the `start` cells of the prompt, which are as they were, and blanks
-- behind it.
pub record Shows (start : ℕ) (before : Bytes) (l : Line) (s : Screen) : Type 0 where
  pub cursor : s.col ≡ start + l.i
  pub prompt : (j : ℕ) → j < start → s.cells j ≡ before j
  pub text : (j : ℕ) → j < l.i → s.cells (start + j) ≡ l.buf j
  pub blank : (j : ℕ) → start + l.i ≤ j → s.cells j ≡ b' '
  pub fits : l.i ≤ 127

-- A byte that a terminal shows in a cell, or a key that deletes one.
abbrev pub IsKey : ℕ → Type 0
IsKey c = (c ≡ 8) ⊎ (31 < c)

abbrev pub AreKeys : List ℕ → Type 0
AreKeys [] = Unit
AreKeys (c ∷ typed) = IsKey c × AreKeys typed

module _ (start : ℕ) (before : Bytes) where
  edit-Shows :
      (ch : ℕ) (l : Line) (s : Screen)
      → IsKey ch
      → Shows start before l s
      → Shows start before (edit ch l).1 (show_bytes (edit ch l).0 s)
  unfolding edit show_bytes show_byte
  edit-Shows ch l s key h = elim (Bool-cases (ch == 8 || ch == 127)) [
    | inl e ↦ elim (Bool-cases (ltb 0 l.i)) [
      | inl e2 ↦
          let lt = ltb→lt 0 l.i e2 in
          let back : sub32 l.i 1 ≡ l.i - 1 = omega (arith, h.fits) in
          rw (e, e2, back)
            record {
              cursor = omega (arith, h.cursor);
              prompt = λ j lt'.
                  upd_ne s.cells (s.col - 1) j b' ' (λ x. omega (arith, h.cursor)) ∙ h.prompt j lt';
              text = λ j lt'.
                  upd_ne s.cells (s.col - 1) (start + j) b' ' (λ x. omega (arith, h.cursor))
                  ∙ h.text j (omega arith);
              blank = λ j le. deleted j le lt;
              fits = omega (arith, h.fits);
            }
      | inr e2 ↦ rw (e, e2) h
    ]
    | inr e ↦ elim (Bool-cases (ltb l.i 127)) [
      | inl e2 ↦
          rw (e, e2)
            (rw (==_ne ch 8 (λ x. ground (arith, e)), ==_ne ch 7 (λ x. ground arith))
              (record {
                cursor = omega (arith, h.cursor);
                prompt = λ j lt.
                    upd_ne s.cells s.col j ch (λ x. omega (arith, h.cursor)) ∙ h.prompt j lt;
                text = put;
                blank = λ j le.
                    upd_ne s.cells s.col j ch (λ x. omega (arith, h.cursor))
                    ∙ h.blank j (omega arith);
                fits = omega (arith, ltb→lt l.i 127 e2);
              }))
      | inr e2 ↦ rw (e, e2) h
    ]
  ]
    where
      deleted : (j : ℕ) → start + (l.i - 1) ≤ j → 0 < l.i → upd s.cells (s.col - 1) b' ' j ≡ b' '
      deleted j le lt = elim (ℕ_discrete j (s.col - 1)) [
        | yes x ↦ rw x (upd_self s.cells (s.col - 1) b' ')
        | no ne ↦ upd_ne s.cells (s.col - 1) j b' ' ne ∙ h.blank j (omega (arith, h.cursor))
      ]

      put : (j : ℕ) → j < l.i + 1 → upd s.cells s.col ch (start + j) ≡ upd l.buf l.i ch j
      put j lt = elim (ℕ_discrete j l.i) [
        | yes x ↦ rw (x, h.cursor) (upd_self s.cells (start + l.i) ch ∙ sym (upd_self l.buf l.i ch))
        | no ne ↦ rw h.cursor (
            upd_ne s.cells (start + l.i) (start + j) ch (λ x. ne (omega arith))
            ∙ h.text j (omega arith)
            ∙ sym (upd_ne l.buf l.i j ch ne))
      ]

show_bytes-append :
    (out more : List ℕ) (s : Screen)
    → show_bytes (out ++ more) s ≡ show_bytes more (show_bytes out s)
unfolding show_bytes
show_bytes-append [] more s = refl
show_bytes-append (c ∷ out) more s = show_bytes-append out more (show_byte c s)

-- What is left of a line after a key, the last byte first: a key that deletes takes that byte away, any
-- other one is put before it if there are fewer than 127.
abbrev pub pressed : ℕ → List ℕ → List ℕ
pressed c line =
    if c == 8 || c == 127 then drop 1 line else if ltb (length line) 127 then c ∷ line else line

unfoldable pub edited : List ℕ → List ℕ → List ℕ
edited [] line = line
edited (c ∷ typed) line = edited typed (pressed c line)

-- The first `n` bytes, the last one first.
unfoldable pub backwards : Bytes → ℕ → List ℕ
backwards buf zero = []
backwards buf (suc n) = buf n ∷ backwards buf n

length-backwards : (buf : Bytes) (n : ℕ) → length (backwards buf n) ≡ n
unfolding backwards
length-backwards buf zero = refl
length-backwards buf (suc n) = ap suc (length-backwards buf n)

backwards-upd : (buf : Bytes) (n i v : ℕ) → n ≤ i → backwards (upd buf i v) n ≡ backwards buf n
unfolding backwards
backwards-upd buf zero i v le = refl
backwards-upd buf (suc n) i v le =
    let e = upd_ne buf i n v (λ x. omega arith) in
    rw (e, backwards-upd buf n i v (omega arith)) refl

abbrev pub line_bytes : Line → List ℕ
line_bytes l = backwards l.buf l.i

shorter : (buf : Bytes) (n : ℕ) → backwards buf (n - 1) ≡ drop 1 (backwards buf n)
unfolding backwards
shorter buf zero = refl
shorter buf (suc n) = let e : suc n - 1 ≡ n = omega arith in rw e refl

edit-pressed :
    (ch : ℕ) (l : Line) → l.i ≤ 127 → line_bytes (edit ch l).1 ≡ pressed ch (line_bytes l)
unfolding edit
edit-pressed ch l fits = elim (Bool-cases (ch == 8 || ch == 127)) [
  | inl e ↦ elim (Bool-cases (ltb 0 l.i)) [
    | inl e2 ↦
        let lt = ltb→lt 0 l.i e2 in
        let back : sub32 l.i 1 ≡ l.i - 1 = omega arith in rw (e, e2, back) (shorter l.buf l.i)
    | inr e2 ↦
        let empty : l.i ≡ 0 = ground arith in rw (e, e2) (rw empty (unfold backwards in refl))
  ]
  | inr e ↦
      let len = length-backwards l.buf l.i in
      elim (Bool-cases (ltb l.i 127)) [
        | inl e2 ↦
            let next : l.i + 1 ≡ suc l.i = omega arith in
            rw (e, len, e2, next)
              (unfold backwards in
                rw (upd_self l.buf l.i ch, backwards-upd l.buf l.i l.i ch (omega arith)) refl)
        | inr e2 ↦ rw (e, len, e2) refl
      ]
]

-- A line that is typed with printable bytes and the keys that delete one, and ended by a '\r', is read: it
-- has at most 127 bytes, those left of the bytes typed when each key that deletes takes away the last one, if
-- any, and bytes beyond 127 are dropped. What is typed behind it is left, and the terminal shows that line
-- behind the prompt, which is as it was, and blanks behind it, if it has shown the bytes read before.
pub read_line-Shows :
    (start : ℕ) (before : Bytes) (typed rest : List ℕ) (l : Line) (s : Screen)
    → AreKeys typed
    → Shows start before l s
    → (e : Entered) × (read_line (typed ++ (13 ∷ rest)) l ≡ some e)
      × (e.rest ≡ rest)
      × ((line_bytes e.line ≡ edited typed (line_bytes l))
          × Shows start before e.line (show_bytes e.echo s))
unfolding read_line edited
read_line-Shows start before [] rest l s keys h =
    (record { echo = []; line = l; rest = rest }, refl, refl, (refl, unfold show_bytes in h))
read_line-Shows start before (ch ∷ typed) rest l s keys h =
    let (out, l') = edit ch l in
    let (e, read, left, (says, shown)) =
      read_line-Shows start before typed rest l' (show_bytes out s) keys.1
        (edit-Shows start before ch l s keys.0 h) in
    (
      record e { echo = out ++ e.echo },
      rw (==_ne ch 13 (λ x. omega (arith, keys.0)), read) refl,
      left,
      (
        says ∙ ap (edited typed) (edit-pressed ch l h.fits),
        rw (show_bytes-append out e.echo s) shown,
      ),
    )
