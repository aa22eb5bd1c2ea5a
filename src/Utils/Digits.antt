-- ===== src/Utils/Digits.antt =====
-- lib/utils.c: the two forms of an id determine each other.
use seafile_server_learn.Prelude.{
  ℕ, zero, suc, ◌+◌, ◌/◌, ◌%◌, ◌≤◌, ◌≡◌, refl, ap, ◌∙◌, ◌==◌, leb, true, false, ◌&&◌, ◌||◌, some,
  List, [], ◌∷◌, arith, length, All, Bool-cases, inl, inr,
}
use seafile_server_learn.Prelude.Text.{Text}
use seafile_server_learn.Utils.Hex.{
  hex_digit, rawdata_to_hex, hexval, pair_val, hex_to_rawdata, is_hex, is_object_id_valid,
}

abbrev pub IsByte : ℕ → Type 0
IsByte b = b + 1 ≤ 256

hexval-hex_digit : (v : ℕ) → v + 1 ≤ 16 → hexval (hex_digit v) ≡ v
unfolding hexval hex_digit
hexval-hex_digit v h = ground arith

pair_val-digits :
    (b : ℕ) → IsByte b → pair_val (hexval (hex_digit (b / 16))) (hexval (hex_digit (b % 16))) ≡ b
unfolding pair_val
pair_val-digits b h =
    ap (λ x. pair_val x (hexval (hex_digit (b % 16)))) (hexval-hex_digit (b / 16) (omega arith))
    ∙ ap (pair_val (b / 16)) (hexval-hex_digit (b % 16) (omega arith))
    ∙ joined b h
  where
    joined : (b : ℕ) → IsByte b → pair_val (b / 16) (b % 16) ≡ b
    joined b h = ground arith

-- For a list of bytes, hex_to_rawdata reads back as many bytes as rawdata_to_hex has written, and gets
-- the same bytes.
pub hex_to_rawdata-rawdata_to_hex :
    (rawdata : List ℕ)
    → All IsByte rawdata
    → hex_to_rawdata (length rawdata) (rawdata_to_hex rawdata) ≡ some rawdata
unfolding hex_to_rawdata rawdata_to_hex
hex_to_rawdata-rawdata_to_hex [] h = refl
hex_to_rawdata-rawdata_to_hex (b ∷ bs) h =
    let here = pair_val-digits b h.0 in
    let small =
      not_large b (pair_val (hexval (hex_digit (b / 16))) (hexval (hex_digit (b % 16)))) h.0 here in
    let ih = hex_to_rawdata-rawdata_to_hex bs h.1 in rw (small, ih) (ap (λ v. some (v ∷ bs)) here)
  where
    not_large : (b v : ℕ) → IsByte b → v ≡ b → leb 256 v ≡ false
    not_large b v h e = ground arith

-- A lower-case digit.
abbrev IsDigit : ℕ → Type 0
IsDigit c = ((leb 48 c && leb c 57) || (leb 97 c && leb c 102)) ≡ true

hex_digit-hexval : (c : ℕ) → IsDigit c → (hexval c + 1 ≤ 16) × (hex_digit (hexval c) ≡ c)
unfolding hexval hex_digit
hex_digit-hexval c h = ground arith

pair_val_halves :
    (high low : ℕ)
    → high + 1 ≤ 16
    → low + 1 ≤ 16
    → IsByte (pair_val high low) × (pair_val high low / 16 ≡ high) × (pair_val high low % 16 ≡ low)
unfolding pair_val
pair_val_halves high low h l = ground arith

-- What hex_to_rawdata read is bytes, and their text is the one that was read.
abbrev pub ReadsAs : ℕ → Text → Type 0
ReadsAs n s =
    (rawdata : List ℕ) × (hex_to_rawdata n s ≡ some rawdata)
    × All IsByte rawdata
    × (length rawdata ≡ n)
    × (rawdata_to_hex rawdata ≡ s)

is_hex-ReadsAs : (n : ℕ) (s : Text) → length s ≡ n + n → is_hex s ≡ true → ReadsAs n s
unfolding is_hex hex_to_rawdata rawdata_to_hex
is_hex-ReadsAs zero [] len h = ([], refl, tt, refl, refl)
is_hex-ReadsAs zero (c ∷ s) len h = absurd (omega arith)
is_hex-ReadsAs (suc n) [] len h = absurd (omega arith)
is_hex-ReadsAs (suc n) (c ∷ []) len h = absurd (omega arith)
is_hex-ReadsAs (suc n) (c ∷ d ∷ s) len h =
    let first : IsDigit c = ground arith in
    let second : IsDigit d = ground arith in
    let later : is_hex s ≡ true = ground arith in
    let (raw, read, bytes, count, written) = is_hex-ReadsAs n s (omega arith) later in
    let (c_small, c_back) = hex_digit-hexval c first in
    let (d_small, d_back) = hex_digit-hexval d second in
    let (byte, high, low) = pair_val_halves (hexval c) (hexval d) c_small d_small in
    let val = pair_val (hexval c) (hexval d) in
    let small : leb 256 val ≡ false = ground arith in
    let up = ap hex_digit high ∙ c_back in
    let down = ap hex_digit low ∙ d_back in
    (val ∷ raw, rw (small, read) refl, (byte, bytes), omega (arith, count), cc (up, down, written))

-- A valid object id is the text of twenty bytes: hex_to_rawdata gets them from it, and rawdata_to_hex
-- writes the same id from them.
pub is_object_id_valid-ReadsAs :
    (obj_id : Text) → is_object_id_valid obj_id ≡ true → ReadsAs 20 obj_id
unfolding is_object_id_valid
is_object_id_valid-ReadsAs obj_id h = elim (Bool-cases (length obj_id == 40)) [
  | inl forty ↦ is_hex-ReadsAs 20 obj_id (ground arith) (ground arith)
  | inr other ↦ absurd (ground arith)
]
