-- ===== src/Shell.antt =====
-- The shell, user/sh/shell.c. A C string is the list of its bytes. This file has what its parts take from
-- the C library.
pub mod Format
pub mod Config
pub mod Line
pub mod Cursor
pub mod Run
use dmaos.Base.{ℕ, ◌==◌, ◌&&◌, Bool, true, false, List, [], ◌∷◌}

-- `strcmp(s, t) == 0`.
unfoldable pub same : List ℕ → List ℕ → Bool
same [] [] = true
same [] (b ∷ t) = false
same (a ∷ s) [] = false
same (a ∷ s) (b ∷ t) = a == b && same s t

-- `strncmp(s, prefix, strlen(prefix)) == 0`.
unfoldable pub starts_with : List ℕ → List ℕ → Bool
starts_with [] s = true
starts_with (a ∷ prefix) [] = false
starts_with (a ∷ prefix) (b ∷ s) = a == b && starts_with prefix s
