-- ===== src/Dol/File.antt =====
-- src/frontend/container/dol.h and dol.c: the header and its bytes. A file's contents are a list
-- of bytes, each below 256.
use dol_recomp.Base.{ℕ, zero, suc, ◌+◌, read_be32, List, [], ◌∷◌}

pub record DolHeader : Type 0 where
  pub text_offsets : List ℕ
  pub data_offsets : List ℕ
  pub text_addresses : List ℕ
  pub data_addresses : List ℕ
  pub text_sizes : List ℕ
  pub data_sizes : List ℕ
  pub bss_address : ℕ
  pub bss_size : ℕ
  pub entry_point : ℕ

pub record DolFile : Type 0 where
  pub header : DolHeader
  pub file_data : List ℕ
  pub file_size : ℕ

abbrev pub dol_header_size : ℕ
dol_header_size = 0x100

abbrev pub dol_num_text : ℕ
dol_num_text = 7

abbrev pub dol_num_data : ℕ
dol_num_data = 11

-- A loop that reads `count` words from `base` on.
unfoldable pub read_words : List ℕ → ℕ → ℕ → List ℕ
read_words h base zero = []
read_words h base (suc count) = read_be32 h base ∷ read_words h (base + 4) count

unfoldable pub parse_header : List ℕ → DolHeader
parse_header h = record {
  text_offsets = read_words h 0x00 dol_num_text;
  data_offsets = read_words h 0x1c dol_num_data;
  text_addresses = read_words h 0x48 dol_num_text;
  data_addresses = read_words h 0x64 dol_num_data;
  text_sizes = read_words h 0x90 dol_num_text;
  data_sizes = read_words h 0xac dol_num_data;
  bss_address = read_be32 h 0xd8;
  bss_size = read_be32 h 0xdc;
  entry_point = read_be32 h 0xe0;
}
