-- ===== src/Utils/Hex.antt =====
-- lib/utils.c: rawdata_to_hex, hex_to_rawdata and is_object_id_valid. Characters and bytes are numbers;
-- a text that ends too early is read as if zeros followed.
use seafile_server_learn.Prelude.{
  ℕ, zero, suc, ◌+◌, ◌-◌, ◌*◌, ◌/◌, ◌%◌, ◌==◌, ltb, leb, ◌&&◌, ◌||◌, Bool, true, false, Option,
  none, some, List, [], ◌∷◌, if◌then◌else◌, length,
}
use seafile_server_learn.Prelude.Text.{Text}

-- The table "0123456789abcdef".
unfoldable pub hex_digit : ℕ → ℕ
hex_digit v = if ltb v 10 then 48 + v else 87 + v

unfoldable pub rawdata_to_hex : List ℕ → Text
unfolding hex_digit
rawdata_to_hex [] = []
rawdata_to_hex (b ∷ bs) = hex_digit (b / 16) ∷ hex_digit (b % 16) ∷ rawdata_to_hex bs

-- `~0` of 32 bits for what is no digit.
unfoldable pub hexval : ℕ → ℕ
hexval c =
    if leb 48 c && leb c 57
    then c - 48
    else if leb 97 c && leb c 102
    then (c - 97) + 10
    else if leb 65 c && leb c 70
    then (c - 65) + 10
    else 4294967295

-- `(high << 4) | low` of 32 bits, where low is below 16 or `~0`.
unfoldable pub pair_val : ℕ → ℕ → ℕ
pair_val high low = if ltb low 16 then (high * 16) % 4294967296 + low else 4294967295

unfoldable pub hex_to_rawdata : (n_bytes : ℕ) → Text → Option (List ℕ)
unfolding hexval pair_val
hex_to_rawdata zero s = some []
hex_to_rawdata (suc n) [] = none
hex_to_rawdata (suc n) (c ∷ []) = none
hex_to_rawdata (suc n) (c ∷ d ∷ s) =
    let val = pair_val (hexval c) (hexval d) in
    let rest = hex_to_rawdata n s in
    if leb 256 val then none else elim rest [ none ↦ none | some bs ↦ some (val ∷ bs) ]

unfoldable pub is_hex : Text → Bool
is_hex [] = true
is_hex (c ∷ cs) =
    let rest = is_hex cs in
    if (leb 48 c && leb c 57) || (leb 97 c && leb c 102) then rest else false

unfoldable pub is_object_id_valid : Text → Bool
unfolding is_hex
is_object_id_valid obj_id = if length obj_id == 40 then is_hex obj_id else false
