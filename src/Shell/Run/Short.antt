-- ===== src/Shell/Run/Short.antt =====
-- The lengths of the paths and command lines that run_command of user/sh/shell.c builds.
use dmaos.Base.{
  ℕ, ◌-◌, ◌<◌, ◌≡◌, refl, ap, inl, inr, Bool-cases, Bool, true, if◌then◌else◌, List, [], ◌∷◌,
  length, length-take, take, arith, ℤ,
}
use dmaos.Machine.Consts.{max_path}
use dmaos.Names.{slash}
use dmaos.Normalize.{append_upto, ends_open}
use dmaos.Normalize.Paths.{length-append_upto}
use dmaos.Shell.Run.{full_path, with_args, start_command, search, wait_for}

length-full_path : (dir name : List ℕ) → length (full_path dir name) < max_path
unfolding full_path
length-full_path dir name =
    let first = take (max_path - 1) dir in
    let short : length first < max_path = let x = length-take (max_path - 1) dir in omega arith in
    elim (Bool-cases (ends_open first)) [
      | inl e ↦ rw e (
          length-append_upto max_path (append_upto max_path first (slash ∷ [])) name
            (length-append_upto max_path first (slash ∷ []) short))
      | inr e ↦ rw e (length-append_upto max_path first name short)
    ]

length-with_args : (path args : List ℕ) → length (with_args path args) < max_path
unfolding with_args
length-with_args path [] = let x = length-take (max_path - 1) path in omega arith
length-with_args path (c ∷ args) =
    let first = take (max_path - 1) path in
    let short : length first < max_path = let x = length-take (max_path - 1) path in omega arith in
    length-append_upto max_path (append_upto max_path first (b' ' ∷ [])) (c ∷ args)
      (length-append_upto max_path first (b' ' ∷ []) short)

start_command-short :
    {W : Type 0} (regular regular' : List ℕ → W → Bool × W) (spawn spawn' : List ℕ → W → ℤ × W)
    (wait : ℤ → W → W) (print : List ℕ → W → W)
    → ((s : List ℕ) (w : W) → length s < max_path → spawn s w ≡ spawn' s w)
    → (cmdline : List ℕ) → length cmdline < max_path
    → (r : Bool × W)
    → start_command regular spawn wait print cmdline r
      ≡ start_command regular' spawn' wait print cmdline r
unfolding start_command wait_for
start_command-short regular regular' spawn spawn' wait print same' cmdline short (found, w) =
    rw (same' cmdline w short) refl

-- The search for a program asks for no path and starts no command line of more than 255 bytes: it does the
-- same with any two `stat` and any two `spawn` that agree on the shorter ones.
pub search-short :
    {W : Type 0} (regular regular' : List ℕ → W → Bool × W) (spawn spawn' : List ℕ → W → ℤ × W)
    (wait : ℤ → W → W) (print : List ℕ → W → W)
    → ((s : List ℕ) (w : W) → length s < max_path → regular s w ≡ regular' s w)
    → ((s : List ℕ) (w : W) → length s < max_path → spawn s w ≡ spawn' s w)
    → (name args : List ℕ) (dirs : List (List ℕ)) (w : W)
    → search regular spawn wait print name args dirs w
      ≡ search regular' spawn' wait print name args dirs w
unfolding search
search-short regular regular' spawn spawn' wait print same same' name args [] w = refl
search-short regular regular' spawn spawn' wait print same same' name args (dir ∷ dirs) w =
    let path = full_path dir name in
    let cmdline = with_args path args in
    let a = same path w (length-full_path dir name) in
    let b =
      start_command-short regular regular' spawn spawn' wait print same' cmdline
        (length-with_args path args) (regular' path w) in
    let r = start_command regular' spawn' wait print cmdline (regular' path w) in
    let later =
      search-short regular regular' spawn spawn' wait print same same' name args dirs r.1 in
    rw (a, b) (ap (λ l. if r.0 then (true, r.1) else l) later)
