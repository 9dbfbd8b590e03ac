-- ===== src/Freetoken/Prefix.antt =====
-- internal/freetoken/prefix.go: the writer that tags each line of a subprocess.
-- A byte is a number. The writer below is the argument `accepts`, which tells, from what it has taken
-- so far, whether it takes the next piece; `written` is what it has taken. `Write` gives the length
-- of its argument in every case, so that only the error is kept.
pub mod Lines
use viiwork_freetoken.Prelude.{ℕ, Bool, true, false, List, [], ◌∷◌, ◌++◌, ◌==◌, if◌then◌else◌}

abbrev pub Bytes : Type 0
Bytes = List ℕ

pub record PrefixWriter : Type 0 where
  pub prefix : Bytes
  pub buf : Bytes
  pub written : List Bytes

unfoldable pub new_prefix_writer : Bytes → PrefixWriter
new_prefix_writer prefix = record { prefix = prefix; buf = []; written = [] }

abbrev pub newline : ℕ
newline = 10

-- The loop, reading the buffer from its front: `line` is what `ReadBytes` has read of the line that
-- it is in. A line is taken out of the buffer before it is written, and is lost if that fails.
pub drain : (List Bytes → Bytes → Bool) → PrefixWriter → Bytes → Bytes → PrefixWriter × Bool
drain accepts w line [] = (record w { buf = line }, true)
drain accepts w line (b ∷ bs) =
    if b == newline
    then (if accepts w.written (w.prefix ++ (line ++ b ∷ []))
        then drain accepts (record w { written = w.written ++ (w.prefix ++ (line ++ b ∷ [])) ∷ [] })
            [] bs
        else (record w { buf = bs }, false))
    else drain accepts w (line ++ b ∷ []) bs

-- The writer afterwards, and whether there was no error.
unfoldable pub write : (List Bytes → Bytes → Bool) → Bytes → PrefixWriter → PrefixWriter × Bool
unfolding drain
write accepts p w = drain accepts w [] (w.buf ++ p)
