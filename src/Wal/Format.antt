-- ===== src/Wal/Format.antt =====
-- crates/cypherlite-storage/src/wal/mod.rs: the header and the frames of the log file, their
-- checksums and their bytes.
pub mod Codec
use cypher_lite.Prelude.{
  ℕ, ◌+◌, ◌*◌, Bool, Option, none, some, List, [], ◌∷◌, ◌++◌, ltb, ◌==◌, if◌then◌else◌, add_u64,
  length, take, drop,
}
use cypher_lite.File.{Bytes}
use cypher_lite.Endian.{to_le, from_le}

-- page/mod.rs
abbrev pub page_size : ℕ
page_size = 4096

abbrev pub wal_magic : ℕ
wal_magic = 0x5741_4C31

abbrev pub wal_format_version : ℕ
wal_format_version = 1

abbrev pub wal_header_size : ℕ
wal_header_size = 32

abbrev pub wal_frame_size : ℕ
wal_frame_size = 32 + page_size

pub record WalHeader : Type 0 where
  pub magic : ℕ
  pub format_version : ℕ
  pub frame_count : ℕ
  pub salt : ℕ
  pub header_checksum : ℕ

unfoldable pub header_checksum_of : WalHeader → ℕ
header_checksum_of h =
    add_u64 (add_u64 (add_u64 (add_u64 0 h.magic) h.format_version) h.frame_count) h.salt

unfoldable pub new_header : ℕ → WalHeader
unfolding header_checksum_of
new_header salt =
    let hdr : WalHeader = record {
      magic = wal_magic;
      format_version = wal_format_version;
      frame_count = 0;
      salt = salt;
      header_checksum = 0;
    } in
    record hdr { header_checksum = header_checksum_of hdr }

unfoldable pub header_to_bytes : WalHeader → Bytes
header_to_bytes h =
    to_le 4 h.magic
    ++ (to_le 4 h.format_version
        ++ (to_le 8 h.frame_count ++ (to_le 8 h.salt ++ to_le 8 h.header_checksum)))

-- The bytes `from` up to `from + n`.
abbrev pub slice : ℕ → ℕ → Bytes → Bytes
slice from n buf = take n (drop from buf)

unfoldable pub header_from_bytes : Bytes → WalHeader
header_from_bytes buf = record {
  magic = from_le (slice 0 4 buf);
  format_version = from_le (slice 4 4 buf);
  frame_count = from_le (slice 8 8 buf);
  salt = from_le (slice 16 8 buf);
  header_checksum = from_le (slice 24 8 buf);
}

pub record WalFrame : Type 0 where
  pub frame_number : ℕ
  pub page_number : ℕ
  pub db_size : ℕ
  pub salt : ℕ
  pub checksum : ℕ
  pub page_data : Bytes

-- The loop over `page_data.chunks(8)`; a last chunk that is shorter is padded with zeros.
unfoldable pub add_chunks : ℕ → Bytes → ℕ
add_chunks sum (a ∷ b ∷ c ∷ d ∷ e ∷ f ∷ g ∷ h ∷ rest) =
    add_chunks (add_u64 sum (from_le (a ∷ b ∷ c ∷ d ∷ e ∷ f ∷ g ∷ h ∷ []))) rest
add_chunks sum [] = sum
add_chunks sum last = add_u64 sum (from_le last)

unfoldable pub compute_checksum : WalFrame → ℕ
compute_checksum f =
    add_chunks
      (add_u64 (add_u64 (add_u64 (add_u64 0 f.frame_number) f.page_number) f.db_size) f.salt)
      f.page_data

unfoldable pub new_frame : ℕ → ℕ → ℕ → ℕ → Bytes → WalFrame
new_frame frame_number page_number db_size salt page_data =
    let frame : WalFrame = record {
      frame_number = frame_number;
      page_number = page_number;
      db_size = db_size;
      salt = salt;
      checksum = 0;
      page_data = page_data;
    } in
    record frame { checksum = compute_checksum frame }

unfoldable pub verify_checksum : WalFrame → Bool
verify_checksum f = f.checksum == compute_checksum f

unfoldable pub frame_to_bytes : WalFrame → Bytes
frame_to_bytes f =
    to_le 8 f.frame_number
    ++ (to_le 4 f.page_number
        ++ (to_le 4 f.db_size ++ (to_le 8 f.salt ++ (to_le 8 f.checksum ++ f.page_data))))

unfoldable pub frame_from_bytes : Bytes → Option WalFrame
frame_from_bytes buf =
    if ltb (length buf) wal_frame_size
    then none
    else some (record {
      frame_number = from_le (slice 0 8 buf);
      page_number = from_le (slice 8 4 buf);
      db_size = from_le (slice 12 4 buf);
      salt = from_le (slice 16 8 buf);
      checksum = from_le (slice 24 8 buf);
      page_data = slice 32 page_size buf;
    })
