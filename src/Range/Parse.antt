-- ===== src/Range/Parse.antt =====
-- server/access-file.c: parse_range_val. `strtoll` is a parameter: the number at the start of a text,
-- in base 10, and how many characters it takes. Sizes and positions wrap around at 64 bits.
use seafile_server_learn.Prelude.{
  ℕ, zero, suc, ◌+◌, ◌-◌, ◌%◌, ◌==◌, ltb, not, Option, none, some, [], ◌∷◌, if◌then◌else◌, length,
}
use seafile_server_learn.Prelude.Text.{Text}
use seafile_server_learn.Prelude.Int.{ℤ, pos, negsuc}

-- `strchr`: how many characters stand before the first one of this kind.
unfoldable pub index_of : ℕ → Text → Option ℕ
index_of c [] = none
index_of c (x ∷ xs) =
    let later = index_of c xs in
    if x == c then some 0 else elim later [ none ↦ none | some i ↦ some (i + 1) ]

unfoldable pub text_from : ℕ → Text → Text
text_from zero t = t
text_from (suc n) [] = []
text_from (suc n) (c ∷ cs) = text_from n cs

abbrev pub two_64 : ℕ
two_64 = 18446744073709551616

-- A 64-bit number as an unsigned one.
unfoldable pub to_u64 : ℤ → ℕ
to_u64 (pos n) = n % two_64
to_u64 (negsuc n) = two_64 - 1 - n % two_64

-- `fsize - 1` of unsigned numbers.
unfoldable pub last_pos : ℕ → ℕ
last_pos fsize = (fsize + (two_64 - 1)) % two_64

module _ (strtoll : Text → ℤ × ℕ) where
  -- The first and the last position before they are checked, or an error.
  unfoldable pub suffix_range : Text → ℕ → Option (ℕ × ℕ)
  unfolding to_u64 last_pos
  suffix_range tmp fsize =
      let r = strtoll tmp in
      if to_u64 r.0 == 0
      then none
      else if r.1 == length tmp
      then some ((to_u64 r.0 + fsize) % two_64, last_pos fsize)
      else none

  unfoldable pub open_range : Text → ℕ → ℕ → Option (ℕ × ℕ)
  unfolding to_u64 last_pos
  open_range tmp minus fsize =
      let r = strtoll tmp in if r.1 == minus then some (to_u64 r.0, last_pos fsize) else none

  unfoldable pub closed_range : Text → ℕ → Option (ℕ × ℕ)
  unfolding to_u64 text_from
  closed_range tmp minus =
      let r = strtoll tmp in
      let second = text_from (minus + 1) tmp in
      let q = strtoll second in
      if not (r.1 == minus)
      then none
      else if q.1 == length second
      then some (to_u64 r.0, to_u64 q.0)
      else none

  unfoldable pub read_range : Text → ℕ → ℕ → Option (ℕ × ℕ)
  unfolding suffix_range open_range closed_range
  read_range tmp minus fsize =
      if minus == 0
      then suffix_range tmp fsize
      else if length tmp == minus + 1
      then open_range tmp minus fsize
      else closed_range tmp minus

  unfoldable pub clip : ℕ → Option (ℕ × ℕ) → Option (ℕ × ℕ)
  unfolding last_pos
  clip fsize none = none
  clip fsize (some (start, end)) =
      let last = if ltb (last_pos fsize) end then last_pos fsize else end in
      if ltb last start then none else some (start, last)

  -- What follows the '='; a header without one is not handled.
  unfoldable pub parse_range_val : Text → ℕ → Option (ℕ × ℕ)
  unfolding index_of text_from read_range clip
  parse_range_val byte_ranges fsize = elim (index_of 61 byte_ranges) [
    | none ↦ none
    | some eq ↦
        let tmp = text_from (eq + 1) byte_ranges in
        elim (index_of 45 tmp) [
          | none ↦ none
          | some minus ↦ clip fsize (read_range tmp minus fsize)
        ]
  ]
