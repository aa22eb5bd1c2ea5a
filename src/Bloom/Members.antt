-- ===== src/Bloom/Members.antt =====
-- lib/bloom-filter.c: a key that was added tests positive, and stays so.
use mathlib.Core.Path.{subst}
use seafile_server_learn.Prelude.{
  ℕ, zero, suc, ◌+◌, ◌*◌, ◌/◌, ◌%◌, ◌^◌, ◌<◌, ◌≤◌, ◌≡◌, refl, sym, ap, ◌∙◌, Bool, true, List, [],
  ◌∷◌, arith, length, replicate, some, length-replicate, In, here, there,
}
use seafile_server_learn.Prelude.Text.{Text}
use seafile_server_learn.Prelude.Int.{ℤ, pos, negsuc}
use seafile_server_learn.Bloom.Bytes.{setbit, getbit}
use seafile_server_learn.Bloom.Laws.{
  IsBytes, setbit-IsBytes, getbit-setbit, length-setbit, replicate-IsBytes,
}
use seafile_server_learn.Bloom.Filter.{
  Bloom, bloom_create, char_count, incr_bit, bit_idx, add_bits, bloom_add, test_bits, bloom_test,
}

-- The array holds `asize` bits, at least one and no more than an `unsigned int` counts.
pub record IsFilter (bf : Bloom) : Type 0 where
  pub some_bits : 0 < bf.asize
  pub indexable : bf.asize ≤ 2 ^ 32
  pub room : bf.asize ≤ 8 * length bf.a
  pub bytes : IsBytes bf.a

-- The same shape, and every bit of the old array is still set.
pub record Grows (old new : Bloom) : Type 0 where
  pub asize_kept : new.asize ≡ old.asize
  pub k_kept : new.k ≡ old.k
  pub bits_kept : (n : ℕ) → getbit old.a n ≡ true → getbit new.a n ≡ true

pub Grows-refl : (bf : Bloom) → Grows bf bf
Grows-refl bf = record { asize_kept = refl; k_kept = refl; bits_kept = λ n h. h }

pub Grows-trans : (a b c : Bloom) → Grows a b → Grows b c → Grows a c
Grows-trans a b c g h = record {
  asize_kept = h.asize_kept ∙ g.asize_kept;
  k_kept = h.k_kept ∙ g.k_kept;
  bits_kept = λ n e. h.bits_kept n (g.bits_kept n e);
}

in_room : (bf : Bloom) (n : ℕ) → IsFilter bf → n < bf.asize → n / 8 < length bf.a
in_room bf n w lt = omega (arith, w.room)

incr_bit-a : (bf : Bloom) (n : ℕ) → (incr_bit bf n).a ≡ setbit bf.a n
unfolding incr_bit
incr_bit-a bf n = ground arith

incr_bit-asize : (bf : Bloom) (n : ℕ) → (incr_bit bf n).asize ≡ bf.asize
unfolding incr_bit
incr_bit-asize bf n = ground arith

incr_bit-k : (bf : Bloom) (n : ℕ) → (incr_bit bf n).k ≡ bf.k
unfolding incr_bit
incr_bit-k bf n = ground arith

incr_bit-IsFilter : (bf : Bloom) (n : ℕ) → IsFilter bf → n < bf.asize → IsFilter (incr_bit bf n)
incr_bit-IsFilter bf n w lt = record {
  some_bits = rw (incr_bit-asize bf n) w.some_bits;
  indexable = rw (incr_bit-asize bf n) w.indexable;
  room = rw (incr_bit-asize bf n, incr_bit-a bf n, length-setbit bf.a n) w.room;
  bytes = rw (incr_bit-a bf n) (setbit-IsBytes bf.a n w.bytes (in_room bf n w lt));
}

incr_bit-Grows : (bf : Bloom) (n : ℕ) → IsFilter bf → n < bf.asize → Grows bf (incr_bit bf n)
incr_bit-Grows bf n w lt = record {
  asize_kept = incr_bit-asize bf n;
  k_kept = incr_bit-k bf n;
  bits_kept = λ m e.
      let bits = getbit-setbit bf.a n m w.bytes (in_room bf n w lt) in
      rw (incr_bit-a bf n, bits, e) (ground arith);
}

incr_bit_self :
    (bf : Bloom) (n : ℕ) → IsFilter bf → n < bf.asize → getbit (incr_bit bf n).a n ≡ true
incr_bit_self bf n w lt =
    let bits = getbit-setbit bf.a n n w.bytes (in_room bf n w lt) in
    rw (incr_bit-a bf n, bits) ground arith

test_bits_zero :
    (sha_int : Text → ℕ → ℕ) (i : ℕ) (s : Text) (bf : Bloom) → test_bits sha_int 0 i s bf ≡ true
unfolding test_bits
test_bits_zero sha_int i s bf = refl

test_bits_of_both :
    (sha_int : Text → ℕ → ℕ) (rounds i : ℕ) (s : Text) (bf : Bloom)
    → getbit bf.a (sha_int s i % bf.asize) ≡ true
    → test_bits sha_int rounds (suc i) s bf ≡ true
    → test_bits sha_int (suc rounds) i s bf ≡ true
unfolding test_bits
test_bits_of_both sha_int rounds i s bf bit later = rw (bit, later) refl

test_bits_both :
    (sha_int : Text → ℕ → ℕ) (rounds i : ℕ) (s : Text) (bf : Bloom)
    → test_bits sha_int (suc rounds) i s bf ≡ true
    → (getbit bf.a (sha_int s i % bf.asize) ≡ true) × (test_bits sha_int rounds (suc i) s bf ≡ true)
unfolding test_bits
test_bits_both sha_int rounds i s bf h = ground arith

-- A filter that grew answers yes wherever it did before.
test_bits-Grows :
    (sha_int : Text → ℕ → ℕ) (rounds i : ℕ) (s : Text) (old new : Bloom)
    → Grows old new
    → test_bits sha_int rounds i s old ≡ true
    → test_bits sha_int rounds i s new ≡ true
unfolding test_bits
test_bits-Grows sha_int zero i s old new g h = refl
test_bits-Grows sha_int (suc rounds) i s old new g h =
    let (bit, later) = test_bits_both sha_int rounds i s old h in
    test_bits_of_both sha_int rounds i s new
      (subst (λ m. getbit new.a (sha_int s i % m) ≡ true) (sym g.asize_kept) (g.bits_kept _ bit))
      (test_bits-Grows sha_int rounds (suc i) s old new g later)

pub bloom_test-Grows :
    (sha_int : Text → ℕ → ℕ) (s : Text) (old new : Bloom)
    → Grows old new
    → bloom_test sha_int old s ≡ true
    → bloom_test sha_int new s ≡ true
unfolding bloom_test
bloom_test-Grows sha_int s old new g h =
    subst (λ k. test_bits sha_int k 0 s new ≡ true) (sym g.k_kept)
      (test_bits-Grows sha_int old.k 0 s old new g h)

module _ (sha_int : Text → ℕ → ℕ) where
  bit_idx_lem :
      (bf : Bloom) (s : Text) (i : ℕ)
      → IsFilter bf
      → bit_idx sha_int bf s i ≡ sha_int s i % bf.asize
  unfolding bit_idx
  bit_idx_lem bf s i w = omega (arith, w.some_bits, w.indexable)

  bit_idx-below : (bf : Bloom) (s : Text) (i : ℕ) → IsFilter bf → bit_idx sha_int bf s i < bf.asize
  bit_idx-below bf s i w = rw (bit_idx_lem bf s i w) (omega (arith, w.some_bits))

  pub add_bits-IsFilter :
      (rounds i : ℕ) (s : Text) (bf : Bloom)
      → IsFilter bf
      → IsFilter (add_bits sha_int rounds i s bf)
  unfolding add_bits
  add_bits-IsFilter zero i s bf w = w
  add_bits-IsFilter (suc rounds) i s bf w =
      add_bits-IsFilter rounds (suc i) s _ (incr_bit-IsFilter bf _ w (bit_idx-below bf s i w))

  pub add_bits-Grows :
      (rounds i : ℕ) (s : Text) (bf : Bloom)
      → IsFilter bf
      → Grows bf (add_bits sha_int rounds i s bf)
  unfolding add_bits
  add_bits-Grows zero i s bf w = Grows-refl bf
  add_bits-Grows (suc rounds) i s bf w =
      let lt = bit_idx-below bf s i w in
      Grows-trans _ _ _ (incr_bit-Grows bf _ w lt)
        (add_bits-Grows rounds (suc i) s _ (incr_bit-IsFilter bf _ w lt))

  test-add_bits :
      (rounds i : ℕ) (s : Text) (bf : Bloom)
      → IsFilter bf
      → test_bits sha_int rounds i s (add_bits sha_int rounds i s bf) ≡ true
  unfolding add_bits
  test-add_bits zero i s bf w = test_bits_zero sha_int i s (add_bits sha_int zero i s bf)
  test-add_bits (suc rounds) i s bf w =
      let n = bit_idx sha_int bf s i in
      let lt = bit_idx-below bf s i w in
      let w' = incr_bit-IsFilter bf n w lt in
      let more = add_bits-Grows rounds (suc i) s (incr_bit bf n) w' in
      let later = test-add_bits rounds (suc i) s (incr_bit bf n) w' in
      let bit = more.bits_kept n (incr_bit_self bf n w lt) in
      let final = add_bits sha_int rounds (suc i) s (incr_bit bf n) in
      let size : final.asize ≡ bf.asize = more.asize_kept ∙ incr_bit-asize bf n in
      let at_n : n ≡ sha_int s i % final.asize =
        bit_idx_lem bf s i w ∙ ap (λ m. sha_int s i % m) (sym size) in
      test_bits_of_both sha_int rounds i s final (subst (λ m. getbit final.a m ≡ true) at_n bit)
        later

  pub bloom_add-IsFilter : (bf : Bloom) (s : Text) → IsFilter bf → IsFilter (bloom_add sha_int bf s)
  unfolding bloom_add
  bloom_add-IsFilter bf s w = add_bits-IsFilter bf.k 0 s bf w

  pub bloom_add-Grows : (bf : Bloom) (s : Text) → IsFilter bf → Grows bf (bloom_add sha_int bf s)
  unfolding bloom_add
  bloom_add-Grows bf s w = add_bits-Grows bf.k 0 s bf w

  pub test-bloom_add :
      (bf : Bloom) (s : Text) → IsFilter bf → bloom_test sha_int (bloom_add sha_int bf s) s ≡ true
  unfolding bloom_test bloom_add
  test-bloom_add bf s w =
      subst (λ k. test_bits sha_int k 0 s (bloom_add sha_int bf s) ≡ true)
        (sym (bloom_add-Grows bf s w).k_kept) (test-add_bits bf.k 0 s bf w)

  -- Adding each key of a list in turn.
  abbrev pub add_all : List Text → Bloom → Bloom
  add_all [] bf = bf
  add_all (s ∷ ss) bf = add_all ss (bloom_add sha_int bf s)

  pub add_all-IsFilter : (ss : List Text) (bf : Bloom) → IsFilter bf → IsFilter (add_all ss bf)
  add_all-IsFilter [] bf w = w
  add_all-IsFilter (s ∷ ss) bf w = add_all-IsFilter ss _ (bloom_add-IsFilter bf s w)

  pub add_all-Grows : (ss : List Text) (bf : Bloom) → IsFilter bf → Grows bf (add_all ss bf)
  add_all-Grows [] bf w = Grows-refl bf
  add_all-Grows (s ∷ ss) bf w =
      Grows-trans _ _ _ (bloom_add-Grows bf s w) (add_all-Grows ss _ (bloom_add-IsFilter bf s w))

  pub test-add_all :
      (ss : List Text) (bf : Bloom) (s : Text)
      → IsFilter bf
      → In s ss
      → bloom_test sha_int (add_all ss bf) s ≡ true
  test-add_all [] bf s w m = elim m [ ]
  test-add_all (x ∷ ss) bf s w (here e) =
      bloom_test-Grows sha_int s _ _ (add_all-Grows ss _ (bloom_add-IsFilter bf x w)) (
        subst (λ x. bloom_test sha_int (bloom_add sha_int bf x) s ≡ true) e (test-bloom_add bf s w))
  test-add_all (x ∷ ss) bf s w (there m) = test-add_all ss _ s (bloom_add-IsFilter bf x w) m

created :
    (bf : Bloom) (length : ℕ)
    → bf.asize ≤ 8 * length
    → 0 < bf.asize
    → bf.asize ≤ 2 ^ 32
    → bf.a ≡ replicate length 0
    → IsFilter bf
created bf n room some_bits indexable e = record {
  some_bits = some_bits;
  indexable = indexable;
  room = subst (λ a. bf.asize ≤ 8 * length a) (sym e) (rw (length-replicate {A = ℕ} n 0) room);
  bytes = subst IsBytes (sym e) (replicate-IsBytes n);
}

pub bloom_create-IsFilter :
    (memory : ℕ → Bool) (size : ℕ) (k : ℤ) (counting : ℕ) (bf : Bloom)
    → bloom_create memory size k counting ≡ some bf
    → 0 < size
    → size ≤ 2 ^ 32
    → IsFilter bf
unfolding bloom_create char_count
bloom_create-IsFilter memory size (negsuc k) counting bf h lo hi = ground arith
bloom_create-IsFilter memory size (pos k) counting bf h lo hi =
    let asize : bf.asize ≡ size = ground arith in
    let a : bf.a ≡ replicate ((size + 7) % 2 ^ 64 / 8) 0 = ground arith in
    created bf ((size + 7) % 2 ^ 64 / 8) (omega (arith, asize)) (omega (arith, asize))
      (omega (arith, asize)) a

-- A Bloom filter has no false negatives: in a filter that bloom_create returned for a size from 1 to
-- 2^32 bits, after any list of keys was added, bloom_test answers yes for each of them, whatever the
-- digests of the keys are.
pub no_false_negatives :
    (sha_int : Text → ℕ → ℕ) (memory : ℕ → Bool) (size : ℕ) (k : ℤ) (counting : ℕ) (bf : Bloom)
    (keys : List Text) (s : Text)
    → bloom_create memory size k counting ≡ some bf
    → 0 < size
    → size ≤ 2 ^ 32
    → In s keys
    → bloom_test sha_int (add_all sha_int keys bf) s ≡ true
no_false_negatives sha_int memory size k counting bf keys s h lo hi m =
    test-add_all sha_int keys bf s (bloom_create-IsFilter memory size k counting bf h lo hi) m
