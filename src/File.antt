-- ===== src/File.antt =====
-- `std::fs::File` as the program uses it: a sequence of bytes, written and read at an offset.
-- A write behind the end fills the gap with zeros; a read past the end is an error.
pub mod Laws
use cypher_lite.Prelude.{
  ℕ, ◌+◌, ◌-◌, List, [], ◌∷◌, ◌++◌, leb, if◌then◌else◌, length, take, drop, replicate,
}
use cypher_lite.Core.{io_error}
use cypher_lite.Core.Result.{Result, ok, err}

abbrev pub Bytes : Type 0
Bytes = List ℕ

-- The first `n` bytes of a file, extended with zeros.
unfoldable pub extend : ℕ → Bytes → Bytes
extend n f = take n f ++ replicate (n - length f) 0

-- `seek(SeekFrom::Start(offset))`, then `write_all(bytes)`
unfoldable pub write_at : ℕ → Bytes → Bytes → Bytes
write_at offset bs f = extend offset f ++ (bs ++ drop (offset + length bs) f)

-- `seek(SeekFrom::Start(offset))`, then `read_exact` of `n` bytes
unfoldable pub read_at : ℕ → ℕ → Bytes → Result Bytes
read_at offset n f =
    if leb (offset + n) (length f) then ok (take n (drop offset f)) else err io_error

-- `set_len`
unfoldable pub set_len : ℕ → Bytes → Bytes
set_len n f = extend n f
