-- ===== src/Tests/Cdc.antt =====
-- A small file cut into blocks, and ids in binary and as text.
use seafile_server_learn.Prelude.{
  ◌++◌, ℕ, ◌+◌, ◌≤◌, ◌≡◌, refl, some, List, [], ◌∷◌, arith, replicate, true,
}
use seafile_server_learn.Cdc.Chunk.{
  Env, CdcFileDescriptor, init_cdc_file_descriptor, file_chunk_cdc,
}
use seafile_server_learn.Cdc.Whole.{Chunked}
use seafile_server_learn.Cdc.Rounds.{sizes_IsUsable, file_chunk_cdc-Chunked}
use seafile_server_learn.Utils.Hex.{hex_to_rawdata, rawdata_to_hex, is_object_id_valid, is_hex}
use seafile_server_learn.Utils.Digits.{
  ReadsAs, hex_to_rawdata-rawdata_to_hex, is_object_id_valid-ReadsAs,
}

-- The break is after a byte that is 3 modulo 4.
abbrev env : Env
env = record {
  finger = λ window. 0;
  rolling_finger = λ fp old new. new;
  reads = λ n. true;
  write_block = λ offset block. some (offset ∷ []);
}

abbrev descr : CdcFileDescriptor
descr = record { block_min_sz = 48; block_max_sz = 4144; block_sz = 4; file_size = 0 }

abbrev bytes : List ℕ
bytes = replicate 50 1 ++ (7 ∷ 1 ∷ 1 ∷ 3 ∷ 9 ∷ [])

window : 48 ≤ (init_cdc_file_descriptor descr).block_min_sz
unfolding init_cdc_file_descriptor
window = omega arith

room :
    (init_cdc_file_descriptor descr).block_min_sz + 4096
    ≤ (init_cdc_file_descriptor descr).block_max_sz
unfolding init_cdc_file_descriptor
room = omega arith

file_chunk_cdc-Chunked_example :
    Chunked env
      (init_cdc_file_descriptor descr)
      (sizes_IsUsable descr window room)
      bytes
      (file_chunk_cdc env descr 55 bytes)
file_chunk_cdc-Chunked_example = file_chunk_cdc-Chunked env descr bytes window room refl

hex_to_rawdata-rawdata_to_hex_example :
    hex_to_rawdata 3 (rawdata_to_hex (0 ∷ 171 ∷ 255 ∷ [])) ≡ some (0 ∷ 171 ∷ 255 ∷ [])
hex_to_rawdata-rawdata_to_hex_example =
    hex_to_rawdata-rawdata_to_hex (0 ∷ 171 ∷ 255 ∷ [])
      (omega arith, (omega arith, (omega arith, tt)))

is_object_id_valid-ReadsAs_example : ReadsAs 20 (replicate 40 102)
unfolding is_object_id_valid is_hex
is_object_id_valid-ReadsAs_example = is_object_id_valid-ReadsAs (replicate 40 102) refl
