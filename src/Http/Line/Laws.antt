-- ===== src/Http/Line/Laws.antt =====
-- What read_line_from_buffer takes from the buffer.
use x_server.Prelude.{
  ℕ, zero, suc, ◌+◌, ◌-◌, ◌≤◌, ◌<◌, ◌≡◌, ◌≢◌, refl, some, [], ◌∷◌, ◌++◌, arith, length, All,
  length-append,
}
use x_server.Text.{Bytes}
use x_server.Http.Line.{read_loop, read_line_from_buffer}

-- A byte that a line can hold.
abbrev pub IsLineByte : ℕ → Type 0
IsLineByte c = (c ≢ b'\n') × (c ≢ b'\r')

pub record Reads (room : ℕ) (buffer : Bytes) (out : Bytes × Bytes) : Type 0 where
  pub bytes : All IsLineByte out.0
  pub bounded : length out.0 ≤ room
  pub shrinks : length out.0 + length out.1 ≤ length buffer

read_loop-Reads : (room : ℕ) (buffer : Bytes) → Reads room buffer (read_loop room buffer)
unfolding read_loop
read_loop-Reads zero b = omega arith
read_loop-Reads (suc room) [] = omega arith
read_loop-Reads (suc room) (c ∷ b) =
    ground (arith, read_loop-Reads (suc room) b, read_loop-Reads room b)

read_loop_line :
    (line rest : Bytes) (room : ℕ)
    → All IsLineByte line
    → length line < room
    → read_loop room (line ++ b'\r' ∷ b'\n' ∷ rest) ≡ (line, rest)
unfolding read_loop
read_loop_line [] rest zero a h = absurd (omega arith)
read_loop_line [] rest (suc room) a h = refl
read_loop_line (c ∷ line) rest zero a h = absurd (omega arith)
read_loop_line (c ∷ line) rest (suc room) a h = ground (arith, read_loop_line line rest room a.1)

read_loop_moves :
    (room c : ℕ) (b : Bytes) → 0 < room → length (read_loop room (c ∷ b)).1 < length (c ∷ b)
unfolding read_loop
read_loop_moves zero c b h = absurd (omega arith)
read_loop_moves (suc room) c b h =
    ground (arith, read_loop-Reads (suc room) b, read_loop-Reads room b)

-- A line ended by CR LF is read back, and what follows it is left, if it fits with room to spare.
pub read_line_roundtrip :
    (line rest : Bytes) (max_line_len : ℕ)
    → All IsLineByte line
    → length line + 1 < max_line_len
    → read_line_from_buffer max_line_len (line ++ b'\r' ∷ b'\n' ∷ rest) ≡ some (line, rest)
unfolding read_line_from_buffer
read_line_roundtrip line rest max_line_len a h = ground (
  arith,
  read_loop_line line rest (max_line_len - 1) a,
  length-append line (b'\r' ∷ b'\n' ∷ rest),
)

-- The line reader fails at the end of the buffer only. Otherwise it takes at least one byte, and the
-- line fits its buffer with the NUL and holds no carriage return or line feed.
pub read_line-progress :
    (max_line_len : ℕ) (c : ℕ) (rest : Bytes)
    → 1 < max_line_len
    → (line : Bytes) × (rest' : Bytes) × (read_line_from_buffer max_line_len (c ∷ rest)
        ≡ some (line, rest'))
      × All IsLineByte line
      × (length line < max_line_len)
      × (length rest' < length (c ∷ rest))
unfolding read_line_from_buffer
read_line-progress max_line_len c rest h =
    let out = read_loop (max_line_len - 1) (c ∷ rest) in
    (
      out.0,
      out.1,
      ground (arith, read_loop_moves (max_line_len - 1) c rest),
      (read_loop-Reads (max_line_len - 1) (c ∷ rest)).bytes,
      ground (arith, read_loop-Reads (max_line_len - 1) (c ∷ rest)),
      read_loop_moves (max_line_len - 1) c rest (omega arith),
    )

pub read_line-shrinks :
    (max_line_len : ℕ) (buffer line rest : Bytes)
    → read_line_from_buffer max_line_len buffer ≡ some (line, rest)
    → length line + length rest ≤ length buffer
unfolding read_line_from_buffer
read_line-shrinks max_line_len buffer line rest e =
    ground (arith, (read_loop-Reads (max_line_len - 1) buffer).shrinks)

pub read_line_bounded :
    (max_line_len : ℕ) (buffer line rest : Bytes)
    → read_line_from_buffer max_line_len buffer ≡ some (line, rest)
    → length line ≤ max_line_len - 1
unfolding read_line_from_buffer
read_line_bounded max_line_len buffer line rest e =
    ground (arith, (read_loop-Reads (max_line_len - 1) buffer).bounded)
