-- ===== src/Record/Versions.antt =====
-- Version records as bytes (page/record_serialization.rs): an entity, a sequence number, and the node or
-- edge record of that version behind its length.
pub mod RoundTrip
use cypher_lite.Prelude.{ℕ, Bool, false, Option, none, some, ◌∷◌, ◌++◌, ◌==◌, if◌then◌else◌, length}
use cypher_lite.File.{Bytes}
use cypher_lite.Endian.{to_le}
use cypher_lite.Version.{VersionRecord, node, relationship}
use cypher_lite.Record.Reader.{Reader, pure, lift, ◌>>=◌, read_bytes, read_uint, read_byte}
use cypher_lite.Record.Property.{Bincode}
use cypher_lite.Record.Fields.{put_count}
use cypher_lite.Record.Nodes.{
  serialize_node_record, deserialize_node_record, serialize_edge_record, deserialize_edge_record,
}

abbrev behind_length : Bytes → Bytes
behind_length record_bytes = put_count (length record_bytes) ++ record_bytes

-- A record of either kind, without its flag and its length.
abbrev version_of :
    {A : Type 0} → (A → VersionRecord) → Option (A × Bool × ℕ) → Option VersionRecord
version_of make none = none
version_of make (some r) = some (make (r.0))

module _ (bincode : Bincode) where
  -- `match record`: the tag and the bytes.
  unfoldable pub put_version : VersionRecord → Bytes
  put_version (node r) = 0 ∷ behind_length (serialize_node_record bincode r false)
  put_version (relationship r) = 1 ∷ behind_length (serialize_edge_record bincode r false)

  unfoldable pub serialize_version_record : ℕ → ℕ → VersionRecord → Bytes
  serialize_version_record entity_id version_seq version =
      to_le 8 entity_id ++ (to_le 8 version_seq ++ put_version version)

  -- `match tag`
  unfoldable pub version_at : ℕ → Bytes → Option VersionRecord
  version_at tag slice =
      if tag == 0
      then version_of node (deserialize_node_record bincode slice)
      else if tag == 1
      then version_of relationship (deserialize_edge_record bincode slice)
      else none

  unfoldable pub read_version_record : Reader (ℕ × ℕ × VersionRecord)
  read_version_record = do
    entity_id ← read_uint 8
    version_seq ← read_uint 8
    tag ← read_byte
    record_len ← read_uint 2
    slice ← read_bytes record_len
    version ← lift (version_at tag slice)
    pure (entity_id, version_seq, version)

  unfoldable pub deserialize_version_record : Bytes → Option ((ℕ × ℕ × VersionRecord) × ℕ)
  deserialize_version_record buf = read_version_record buf 0
