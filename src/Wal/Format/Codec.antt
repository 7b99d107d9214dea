-- ===== src/Wal/Format/Codec.antt =====
-- The header and the frames are read back as they were written.
use cypher_lite.Prelude.{◌<◌, ◌≡◌, refl, some, arith, length, u32_mod, u64_mod, take-length}
use cypher_lite.Endian.{from_le-to_le_32, from_le-to_le_64}
use cypher_lite.Wal.Format.{
  page_size, wal_header_size, wal_frame_size, WalHeader, header_to_bytes, header_from_bytes,
  WalFrame, frame_to_bytes, frame_from_bytes,
}

-- Every field of a header fits its width.
pub record IsHeader (h : WalHeader) : Type 0 where
  pub magic : h.magic < u32_mod
  pub format_version : h.format_version < u32_mod
  pub frame_count : h.frame_count < u64_mod
  pub salt : h.salt < u64_mod
  pub header_checksum : h.header_checksum < u64_mod

-- Every field of a frame fits its width, and the data is one page.
pub record IsFrame (f : WalFrame) : Type 0 where
  pub frame_number : f.frame_number < u64_mod
  pub page_number : f.page_number < u32_mod
  pub db_size : f.db_size < u32_mod
  pub salt : f.salt < u64_mod
  pub checksum : f.checksum < u64_mod
  pub page_data : length f.page_data ≡ page_size

pub length-header_to_bytes : (h : WalHeader) → length (header_to_bytes h) ≡ wal_header_size
unfolding header_to_bytes
length-header_to_bytes h = refl

pub length-frame_to_bytes :
    (f : WalFrame) → length f.page_data ≡ page_size → length (frame_to_bytes f) ≡ wal_frame_size
unfolding frame_to_bytes
length-frame_to_bytes f h = omega arith

-- A header whose fields fit their widths is what reading its bytes gives.
pub header_from_bytes-header_to_bytes :
    (h : WalHeader) → IsHeader h → header_from_bytes (header_to_bytes h) ≡ h
unfolding header_from_bytes header_to_bytes
header_from_bytes-header_to_bytes h v = λ i. record {
  magic = from_le-to_le_32 h.magic v.magic i;
  format_version = from_le-to_le_32 h.format_version v.format_version i;
  frame_count = from_le-to_le_64 h.frame_count v.frame_count i;
  salt = from_le-to_le_64 h.salt v.salt i;
  header_checksum = from_le-to_le_64 h.header_checksum v.header_checksum i;
}

-- A frame that fits the format is what reading its bytes gives.
pub frame_from_bytes-frame_to_bytes :
    (f : WalFrame) → IsFrame f → frame_from_bytes (frame_to_bytes f) ≡ some f
unfolding frame_from_bytes frame_to_bytes
frame_from_bytes-frame_to_bytes f v = rw v.page_data λ i. some (record {
  frame_number = from_le-to_le_64 f.frame_number v.frame_number i;
  page_number = from_le-to_le_32 f.page_number v.page_number i;
  db_size = from_le-to_le_32 f.db_size v.db_size i;
  salt = from_le-to_le_64 f.salt v.salt i;
  checksum = from_le-to_le_64 f.checksum v.checksum i;
  page_data = take-length page_size f.page_data (omega arith) i;
})
