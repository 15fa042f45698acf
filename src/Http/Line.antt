-- ===== src/Http/Line.antt =====
-- src/http.c: read_line_from_buffer. The buffer is the list of its unread bytes, so that `*pos` is
-- the length of the whole buffer less that of the list.
pub mod Laws
use x_server.Prelude.{
  ℕ, zero, suc, ◌+◌, ◌-◌, Bool, true, false, ◌&&◌, Option, none, some, List, [], ◌∷◌, ◌==◌, ltb,
  if◌then◌else◌, length,
}
use x_server.Text.{Bytes}

-- MAX_LINE_LENGTH
abbrev pub max_line_length : ℕ
max_line_length = 8192

abbrev pub push : ℕ → Bytes × Bytes → Bytes × Bytes
push c (line, rest) = (c ∷ line, rest)

-- The loop: `room` is `max_line_len - 1 - i`. The result is the line and the unread bytes.
pub read_loop : ℕ → Bytes → Bytes × Bytes
read_loop zero rest = ([], rest)
read_loop (suc room) [] = ([], [])
read_loop (suc room) (c ∷ rest) =
    let skipped = read_loop (suc room) rest in
    let kept = push c (read_loop room rest) in
    if c == b'\n' then ([], rest) else if c == b'\r' then skipped else kept

-- `none` is the -1 at the end of the buffer; a line is `some`, with its length as the count that the
-- source returns.
unfoldable pub read_line_from_buffer : ℕ → Bytes → Option (Bytes × Bytes)
unfolding read_loop
read_line_from_buffer max_line_len rest =
    let (line, rest') = read_loop (max_line_len - 1) rest in
    if ltb 0 (length line)
    then some (line, rest')
    else if ltb (length rest') (length rest)
    then some (line, rest')
    else none
