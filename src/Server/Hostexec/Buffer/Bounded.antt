-- ===== src/Server/Hostexec/Buffer/Bounded.antt =====
-- server/hostexec/launcher.go: what a bounded buffer holds of the lines that are written to it.
use fraglands.Prelude.{
  ℕ, ◌+◌, ◌-◌, ◌≤◌, ◌<◌, ◌≡◌, refl, ap, ◌∙◌, ◌⊎◌, inl, inr, true, false, [], ◌++◌, nat_eq, leb,
  if◌then◌else◌, arith, length, length-append, take, take-append_left, take-append_right,
  length-take, append_assoc, take_all,
}
use fraglands.Server.Hostexec.Buffer.{
  Bytes, newline, BoundedBuffer, new_bounded_buffer, write_line, snapshot,
}

-- The text cut off at the limit, closed by a newline where something is cut.
abbrev pub bounded : ℕ → Bytes → Bytes
bounded limit text = if leb (length text) limit then text else take (limit - 1) text ++ newline

-- The text is empty, or ends in a newline.
abbrev pub IsWhole : Bytes → Type 0
IsWhole text = (text ≡ []) ⊎ ((front : Bytes) × (text ≡ front ++ newline))

-- The buffer has captured the text.
pub record Captured (limit : ℕ) (text : Bytes) (b : BoundedBuffer) : Type 0 where
  pub limited : b.limit ≡ limit
  pub whole : IsWhole text
  pub kept : b.overflowed ≡ false → (b.buf ≡ text) × (length text ≤ limit)
  pub cut : b.overflowed ≡ true → (b.buf ≡ take (limit - 1) text ++ newline) × (limit < length text)

pub new_bounded_buffer-Captured : (limit : ℕ) → Captured limit [] (new_bounded_buffer limit)
unfolding new_bounded_buffer
new_bounded_buffer-Captured limit = record {
  limited = refl;
  whole = inl refl;
  kept = λ h. (refl, omega arith);
  cut = λ h. absurd (ground arith);
}

length-line :
    (text line : Bytes) → length ((text ++ line) ++ newline) ≡ length text + length line + 1
length-line text line = omega (arith, length-append (text ++ line) newline, length-append text line)

-- Behind a text that is longer than the limit, a further line is not seen.
cut_again :
    (n : ℕ) (text line : Bytes) → n ≤ length text → take n ((text ++ line) ++ newline) ≡ take n text
cut_again n text line h =
    ap (take n) (append_assoc text line newline) ∙ take-append_left n text (line ++ newline) h

-- A whole text that fills the limit is its own cut.
cut_full :
    (limit : ℕ) (text : Bytes)
    → 0 < limit
    → length text ≡ limit
    → IsWhole text
    → text ≡ take (limit - 1) text ++ newline
cut_full limit text pos h (inl e) = absurd (ground (arith, e))
cut_full limit text pos h (inr (front, e)) = ground (
  arith,
  e,
  length-append front newline,
  take-append_left (limit - 1) front newline,
  take_all front,
)

-- The cut goes through the next line.
cut_line :
    (limit : ℕ) (text line : Bytes)
    → length text < limit
    → limit < length text + length line + 1
    → take (limit - 1) ((text ++ line) ++ newline) ≡ text ++ take (limit - length text - 1) line
cut_line limit text line h long =
    let k = limit - length text - 1 in
    ap (take (limit - 1)) (append_assoc text line newline)
    ∙ (ap (λ n. take n (text ++ (line ++ newline))) {x = limit - 1} {y = length text + k}
          (omega arith)
        ∙ (take-append_right k text (line ++ newline)
            ∙ ap (λ r. text ++ r) (take-append_left k line newline (omega arith))))

pub write_line-Captured :
    {limit : ℕ} (text line : Bytes) (b : BoundedBuffer)
    → 0 < limit
    → Captured limit text b
    → Captured limit ((text ++ line) ++ newline) (write_line b line)
unfolding write_line
write_line-Captured {limit} text line b pos c = record {
  limited = ground (arith, c.limited);
  whole = inr (text ++ line, refl);
  kept = λ h. ground (arith, c.limited, c.kept, c.cut, length-line text line);
  cut = λ h. ground (
    arith,
    c.limited,
    c.kept,
    c.cut,
    length-line text line,
    cut_again (limit - 1) text line,
    cut_full limit text pos,
    c.whole,
    cut_line limit text line,
  );
}

-- What is captured is the text cut at the limit.
pub Captured-snapshot :
    {limit : ℕ} {text : Bytes} {b : BoundedBuffer}
    → Captured limit text b
    → snapshot b ≡ bounded limit text
unfolding snapshot
Captured-snapshot {limit} {text} {b} c = ground (arith, c.kept, c.cut)

pub length-bounded : (limit : ℕ) (text : Bytes) → 0 < limit → length (bounded limit text) ≤ limit
length-bounded limit text pos =
    ground (arith, length-take (limit - 1) text, length-append (take (limit - 1) text) newline)
