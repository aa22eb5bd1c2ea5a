-- ===== src/Range/Bounds.antt =====
-- server/access-file.c: the ranges that parse_range_val accepts.
use seafile_server_learn.Prelude.{
  ℕ, ◌+◌, ◌≤◌, ◌≡◌, ltb, Option, none, some, arith, Option-cases, Bool-cases, inl, inr,
}
use seafile_server_learn.Prelude.Text.{Text}
use seafile_server_learn.Prelude.Int.{ℤ}
use seafile_server_learn.Range.Parse.{
  index_of, text_from, two_64, last_pos, read_range, clip, parse_range_val,
}

-- A range that was accepted lies within the file.
abbrev pub Within : ℕ → Option (ℕ × ℕ) → Type 0
Within fsize none = Unit {0}
Within fsize (some (start, end)) = (start ≤ end) × (end + 1 ≤ fsize)

pub last_pos_lem : (fsize : ℕ) → 1 ≤ fsize → fsize + 1 ≤ two_64 → last_pos fsize + 1 ≡ fsize
unfolding last_pos
last_pos_lem fsize h k = ground arith

clip-Within :
    (strtoll : Text → ℤ × ℕ) (fsize : ℕ) (r : Option (ℕ × ℕ))
    → 1 ≤ fsize
    → fsize + 1 ≤ two_64
    → Within fsize (clip strtoll fsize r)
unfolding clip
clip-Within strtoll fsize none h k = tt
clip-Within strtoll fsize (some (start, end)) h k =
    let last = last_pos_lem fsize h k in
    elim (Bool-cases (ltb (last_pos fsize) end)) [
      | inl cut ↦ elim (Bool-cases (ltb (last_pos fsize) start)) [
        | inl outside ↦ rw (cut, outside, clip) tt
        | inr inside ↦
            let ordered : start ≤ last_pos fsize = ground arith in
            rw (cut, inside, clip) (ordered, omega (arith, last))
      ]
      | inr short ↦ elim (Bool-cases (ltb end start)) [
        | inl outside ↦ rw (short, outside, clip) tt
        | inr inside ↦
            let ordered : start ≤ end = ground arith in
            let below : end ≤ last_pos fsize = ground arith in
            rw (short, inside, clip) (ordered, omega (arith, last, below))
      ]
    ]

-- For a file that is not empty and smaller than 2^64 bytes, and whatever strtoll returns: a range that
-- parse_range_val accepts starts no later than it ends, and ends within the file.
pub parse_range_val-Within :
    (strtoll : Text → ℤ × ℕ) (byte_ranges : Text) (fsize : ℕ)
    → 1 ≤ fsize
    → fsize + 1 ≤ two_64
    → Within fsize (parse_range_val strtoll byte_ranges fsize)
unfolding parse_range_val
parse_range_val-Within strtoll byte_ranges fsize h k =
    elim (Option-cases (index_of 61 byte_ranges)) [
      | inl missing ↦ rw (missing, parse_range_val) tt
      | inr (eq, found) ↦ elim (Option-cases (index_of 45 (text_from (eq + 1) byte_ranges))) [
        | inl missing ↦ rw (found, missing, parse_range_val) tt
        | inr (minus, there) ↦
            let inside =
              clip-Within strtoll fsize
                (read_range strtoll (text_from (eq + 1) byte_ranges) minus fsize) h k in
            rw (found, there, parse_range_val) inside
      ]
    ]
