-- ===== src/Version.antt =====
-- crates/cypherlite-storage/src/version/mod.rs: the history of every entity. The key (entity, seq) of
-- the source's map is one number, in the same order.
pub mod History
use cypher_lite.Prelude.{
  ℕ, ◌+◌, ◌-◌, ◌*◌, ◌%◌, ◌&&◌, Option, none, some, List, [], map, leb, if◌then◌else◌, length,
  add_u64, u64_mod,
}
use cypher_lite.Core.{NodeRecord, RelationshipRecord}
use cypher_lite.OrdMap
use cypher_lite.OrdMap.{OrdMap, entry_or, entries_where}

pub data VersionRecord : Type 0 where
  node : NodeRecord → VersionRecord
  relationship : RelationshipRecord → VersionRecord

pub record VersionStore : Type 0 where
  pub versions : OrdMap VersionRecord
  pub next_seq : OrdMap ℕ

unfoldable pub new_version_store : VersionStore
new_version_store = record { versions = []; next_seq = [] }

-- `(entity_id, version_seq)`
abbrev pub key : ℕ → ℕ → ℕ
key entity_id version_seq = entity_id * u64_mod + version_seq

-- The body that `snapshot_node` and `snapshot_relationship` share.
unfoldable pub snapshot : VersionStore → ℕ → VersionRecord → ℕ × VersionStore
snapshot s entity_id version =
    let current_seq = entry_or entity_id 1 s.next_seq in
    (
      current_seq,
      record {
        versions = OrdMap.insert (key entity_id current_seq) version s.versions;
        next_seq = OrdMap.insert entity_id (add_u64 current_seq 1) s.next_seq;
      },
    )

unfoldable pub snapshot_node : VersionStore → ℕ → NodeRecord → ℕ × VersionStore
snapshot_node s entity_id r = snapshot s entity_id (node r)

unfoldable pub snapshot_relationship : VersionStore → ℕ → RelationshipRecord → ℕ × VersionStore
snapshot_relationship s entity_id r = snapshot s entity_id (relationship r)

unfoldable pub get_version : VersionStore → ℕ → ℕ → Option VersionRecord
get_version s entity_id version_seq = OrdMap.get (key entity_id version_seq) s.versions

unfoldable pub get_latest_version : VersionStore → ℕ → Option VersionRecord
get_latest_version s entity_id = elim (OrdMap.get entity_id s.next_seq) [
  | none ↦ none
  | some current_seq ↦
      if leb current_seq 1 then none else OrdMap.get (key entity_id (current_seq - 1)) s.versions
]

unfoldable pub get_version_chain : VersionStore → ℕ → List (ℕ × VersionRecord)
get_version_chain s entity_id =
    map (λ e. (e.0 % u64_mod, e.1))
      (entries_where (λ k v. leb (key entity_id 0) k && leb k (key entity_id (u64_mod - 1)))
        s.versions)

unfoldable pub version_count : VersionStore → ℕ → ℕ
version_count s entity_id = entry_or entity_id 1 s.next_seq - 1

unfoldable pub total_versions : VersionStore → ℕ
total_versions s = length s.versions

unfoldable pub insert_loaded_record : VersionStore → ℕ → ℕ → VersionRecord → VersionStore
insert_loaded_record s entity_id version_seq version =
    let seq = entry_or entity_id 1 s.next_seq in
    record {
      versions = OrdMap.insert (key entity_id version_seq) version s.versions;
      next_seq =
          OrdMap.insert entity_id (if leb seq version_seq then add_u64 version_seq 1 else seq)
            s.next_seq;
    }
