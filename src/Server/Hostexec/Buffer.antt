-- ===== src/Server/Hostexec/Buffer.antt =====
-- server/hostexec/launcher.go: boundedBuffer, the capture of one stream of a child. A string of Go is
-- the list of its bytes. NewLauncher has refused a negative limit.
pub mod Bounded
use fraglands.Prelude.{
  ℕ, ◌+◌, ◌-◌, Bool, true, false, List, [], ◌∷◌, ◌++◌, ◌==◌, nat_eq, ltb, if◌then◌else◌, length,
  take,
}

abbrev pub Bytes : Type 0
Bytes = List ℕ

pub record BoundedBuffer : Type 0 where
  pub limit : ℕ
  pub buf : Bytes
  pub overflowed : Bool

-- newBoundedBuffer
unfoldable pub new_bounded_buffer : ℕ → BoundedBuffer
new_bounded_buffer limit = record { limit = limit; buf = []; overflowed = false }

-- `'\n'`
abbrev pub newline : Bytes
newline = 10 ∷ []

-- boundedBuffer.writeLine
unfoldable pub write_line : BoundedBuffer → Bytes → BoundedBuffer
write_line b line =
    if b.overflowed
    then b
    else let room = b.limit - length b.buf in
      if room == 0
      then record b { overflowed = true }
      else if ltb room (length line + 1)
      then record b { buf = (b.buf ++ take (room - 1) line) ++ newline; overflowed = true }
      else record b { buf = (b.buf ++ line) ++ newline }

-- boundedBuffer.markOverflow
unfoldable pub mark_overflow : BoundedBuffer → BoundedBuffer
mark_overflow b = record b { overflowed = true }

-- boundedBuffer.snapshot
unfoldable pub snapshot : BoundedBuffer → Bytes
snapshot b = b.buf
