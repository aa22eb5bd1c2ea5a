-- ===== src/Tests/Range.antt =====
-- Byte ranges of a file of ten bytes, with a strtoll that reads what these ranges hold.
use seafile_server_learn.Prelude.{ℕ, ◌≡◌, refl, some, if◌then◌else◌, arith}
use seafile_server_learn.Prelude.Text.{Text, codes, str_eq, strcmp}
use seafile_server_learn.Prelude.Int.{ℤ, pos, negsuc}
use seafile_server_learn.Range.Parse.{parse_range_val, index_of}
use seafile_server_learn.Range.Bounds.{Within, parse_range_val-Within}
use seafile_server_learn.Range.Meaning.{parse_range_val-suffix, parse_range_val-closed}

abbrev strtoll : Text → ℤ × ℕ
strtoll t =
    if str_eq t (codes "-3")
    then (negsuc 2, 2)
    else if str_eq t (codes "2-99")
    then (pos 2, 1)
    else if str_eq t (codes "99")
    then (pos 99, 2)
    else (pos 0, 0)

parse_range_val-Within_example : Within 10 (parse_range_val strtoll (codes "bytes=2-99") 10)
parse_range_val-Within_example =
    parse_range_val-Within strtoll (codes "bytes=2-99") 10 (omega arith) (omega arith)

parse_range_val-suffix_example : parse_range_val strtoll (codes "bytes=-3") 10 ≡ some (7, 9)
unfolding index_of str_eq strcmp
parse_range_val-suffix_example =
    parse_range_val-suffix strtoll (codes "bytes") refl 10 (omega arith) (omega arith) (codes "3") 2
      refl (omega arith)

parse_range_val-closed_example : parse_range_val strtoll (codes "bytes=2-99") 10 ≡ some (2, 9)
unfolding index_of str_eq strcmp
parse_range_val-closed_example =
    parse_range_val-closed strtoll (codes "bytes") refl 10 (omega arith) (omega arith) (codes "2")
      (codes "99") 2 99 refl (omega arith) (omega arith) refl refl (omega arith) (omega arith)
