-- ===== src/Range/Meaning.antt =====
-- server/access-file.c: what a byte range means.
use seafile_server_learn.Prelude.{
  ℕ, suc, ◌+◌, ◌-◌, ◌%◌, ◌≤◌, ◌==◌, ◌≡◌, refl, ap, ◌∙◌, ltb, true, false, none, some, [], ◌∷◌, ◌++◌,
  if◌then◌else◌, length, length-append, arith, Option-cases, Bool-cases, inl, inr,
}
use seafile_server_learn.Prelude.Text.{Text}
use seafile_server_learn.Prelude.Int.{ℤ, pos, negsuc}
use seafile_server_learn.Range.Parse.{
  index_of, text_from, two_64, to_u64, last_pos, suffix_range, closed_range, read_range, clip,
  parse_range_val,
}
use seafile_server_learn.Range.Bounds.{last_pos_lem}

index_of-append :
    (c : ℕ) (front rest : Text)
    → index_of c front ≡ none
    → index_of c (front ++ (c ∷ rest)) ≡ some (length front)
unfolding index_of
index_of-append c [] rest h = let same : (c == c) ≡ true = ground arith in rw same refl
index_of-append c (x ∷ front) rest h = elim (Bool-cases (x == c)) [
  | inl here ↦ absurd (ground arith)
  | inr other ↦ elim (Option-cases (index_of c front)) [
    | inr (i, found) ↦ absurd (ground arith)
    | inl absent ↦ rw (other, index_of-append c front rest absent) (ap some (omega arith))
  ]
]

past_front :
    (front rest : Text) (c : ℕ) → text_from (suc (length front)) (front ++ (c ∷ rest)) ≡ rest
unfolding text_from
past_front [] rest c = refl
past_front (x ∷ front) rest c = past_front front rest c

text_from-append :
    (front rest : Text) (c : ℕ) → text_from (length front + 1) (front ++ (c ∷ rest)) ≡ rest
text_from-append front rest c =
    let next : length front + 1 ≡ suc (length front) = omega arith in
    ap (λ n. text_from n (front ++ (c ∷ rest))) next ∙ past_front front rest c

module _ (strtoll : Text → ℤ × ℕ) (name : Text) (named : index_of 61 name ≡ none) (fsize : ℕ)
    (some_bytes : 1 ≤ fsize) (small : fsize + 1 ≤ two_64) where
  after_name :
      (tmp : Text) (minus : ℕ)
      → index_of 45 tmp ≡ some minus
      → parse_range_val strtoll (name ++ (61 ∷ tmp)) fsize
        ≡ clip strtoll fsize (read_range strtoll tmp minus fsize)
  unfolding parse_range_val
  after_name tmp minus there =
      rw (index_of-append 61 name tmp named, text_from-append name tmp 61, there, parse_range_val)
        (ap (λ t. clip strtoll fsize (read_range strtoll t minus fsize))
          (text_from-append name tmp 61))

  clip_inside :
      (start end : ℕ)
      → start ≤ end
      → end ≤ last_pos fsize
      → clip strtoll fsize (some (start, end)) ≡ some (start, end)
  unfolding clip
  clip_inside start end h k =
      let short : ltb (last_pos fsize) end ≡ false = ground arith in
      let ordered : ltb end start ≡ false = ground arith in rw (short, ordered, clip) refl

  suffix_at :
      (digits : Text) (m : ℕ)
      → strtoll (45 ∷ digits) ≡ (negsuc m, length digits + 1)
      → m + 1 ≤ fsize
      → suffix_range strtoll (45 ∷ digits) fsize ≡ some (fsize - (m + 1), last_pos fsize)
  unfolding suffix_range to_u64
  suffix_at digits m number within =
      let not_zero : (two_64 - 1 - m % two_64 == 0) ≡ false = ground arith in
      let whole : (length digits + 1 == suc (length digits)) ≡ true = ground arith in
      let start : (two_64 - 1 - m % two_64 + fsize) % two_64 ≡ fsize - (m + 1) =
        omega (arith, within, small) in
      rw (number, not_zero, whole, suffix_range) (ap (λ x. some (x, last_pos fsize)) start)

  closed_at :
      (first second : Text) (a b : ℕ)
      → 1 ≤ length first
      → 1 ≤ length second
      → strtoll (first ++ (45 ∷ second)) ≡ (pos a, length first)
      → strtoll second ≡ (pos b, length second)
      → a + 1 ≤ two_64
      → b + 1 ≤ two_64
      → read_range strtoll (first ++ (45 ∷ second)) (length first) fsize ≡ some (a, b)
  unfolding read_range closed_range to_u64
  closed_at first second a b one_first one_second read_a read_b small_a small_b =
      let len = length-append first (45 ∷ second) in
      let not_suffix : (length first == 0) ≡ false = ground arith in
      let not_open : (length (first ++ (45 ∷ second)) == length first + 1) ≡ false = ground arith in
      let tail = text_from-append first second 45 in
      let to_minus : (length first == length first) ≡ true = ground arith in
      let to_end : (length second == length second) ≡ true = ground arith in
      let a_fits : a % two_64 ≡ a = omega arith in
      let b_fits : b % two_64 ≡ b = omega arith in
      rw (not_suffix, not_open, tail, read_a, read_b, to_minus, to_end, read_range, closed_range)
        (cc (a_fits, b_fits))

  clipped :
      (a b : ℕ)
      → clip strtoll fsize (some (a, b)) ≡ (
          if ltb b fsize
          then (if ltb b a then none else some (a, b))
          else if ltb a fsize
          then some (a, fsize - 1)
          else none)
  unfolding clip
  clipped a b =
      let last = last_pos_lem fsize some_bytes small in
      let at_last : last_pos fsize ≡ fsize - 1 = omega (arith, last) in
      elim (Bool-cases (ltb b fsize)) [
        | inl inside ↦
            let short : ltb (last_pos fsize) b ≡ false = ground arith in
            rw (inside, short, clip) refl
        | inr beyond ↦
            let cut : ltb (last_pos fsize) b ≡ true = ground arith in
            elim (Bool-cases (ltb a fsize)) [
              | inl starts ↦
                  let ordered : ltb (last_pos fsize) a ≡ false = ground arith in
                  rw (beyond, cut, starts, ordered, clip) (ap (λ e. some (a, e)) at_last)
              | inr behind ↦
                  let nothing : ltb (last_pos fsize) a ≡ true = ground arith in
                  rw (beyond, cut, behind, nothing, clip) refl
            ]
      ]

  -- For a file that is not empty and smaller than 2^64 bytes, and a suffix of one to fsize bytes, which
  -- strtoll reads as the negative number it is: "-n" is the last n bytes of the file.
  pub parse_range_val-suffix :
      (digits : Text) (m : ℕ)
      → strtoll (45 ∷ digits) ≡ (negsuc m, length digits + 1)
      → m + 1 ≤ fsize
      → parse_range_val strtoll (name ++ (61 ∷ 45 ∷ digits)) fsize
        ≡ some (fsize - (m + 1), fsize - 1)
  unfolding read_range index_of
  parse_range_val-suffix digits m number within =
      let last = last_pos_lem fsize some_bytes small in
      after_name (45 ∷ digits) 0 refl
      ∙ ap (clip strtoll fsize) (suffix_at digits m number within)
      ∙ clip_inside (fsize - (m + 1)) (last_pos fsize) (omega (arith, last)) (omega (arith, last))
      ∙ ap (λ e. some (fsize - (m + 1), e)) (omega (arith, last))

  -- For such a file, and two texts that strtoll reads completely as a and b below 2^64, the first of them
  -- up to the '-': "a-b" is the bytes from a to b, or to the end of the file if b is behind it, and it is
  -- refused if there are none.
  pub parse_range_val-closed :
      (first second : Text) (a b : ℕ)
      → index_of 45 first ≡ none
      → 1 ≤ length first
      → 1 ≤ length second
      → strtoll (first ++ (45 ∷ second)) ≡ (pos a, length first)
      → strtoll second ≡ (pos b, length second)
      → a + 1 ≤ two_64
      → b + 1 ≤ two_64
      → parse_range_val strtoll (name ++ (61 ∷ (first ++ (45 ∷ second)))) fsize ≡ (
          if ltb b fsize
          then (if ltb b a then none else some (a, b))
          else if ltb a fsize
          then some (a, fsize - 1)
          else none)
  parse_range_val-closed first second a b plain one_first one_second read_a read_b small_a small_b =
      after_name (first ++ (45 ∷ second)) (length first) (index_of-append 45 first second plain)
      ∙ ap (clip strtoll fsize)
          (closed_at first second a b one_first one_second read_a read_b small_a small_b)
      ∙ clipped a b
