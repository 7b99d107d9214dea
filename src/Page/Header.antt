-- ===== src/Page/Header.antt =====
-- crates/cypherlite-storage/src/page/mod.rs: the constants of the file format and the database
-- header on page 0, compiled with every feature.
pub mod Codec
use Prim.Native.Nat.{bit_or}
use cypher_lite.Prelude.{ℕ, ◌-◌, ◌*◌, ◌++◌, leb, if◌then◌else◌, replicate}
use cypher_lite.File.{Bytes}
use cypher_lite.Endian.{to_le, from_le}
use cypher_lite.Wal.Format.{page_size, slice}

abbrev pub header_magic : ℕ
header_magic = 0x4359_4C54

abbrev pub format_version : ℕ
format_version = 7

abbrev pub fsm_page_id : ℕ
fsm_page_id = 1

abbrev pub first_data_page : ℕ
first_data_page = 2

abbrev pub fsm_max_pages : ℕ
fsm_max_pages = page_size * 8

pub record DatabaseHeader : Type 0 where
  pub magic : ℕ
  pub version : ℕ
  pub page_count : ℕ
  pub root_node_page : ℕ
  pub root_edge_page : ℕ
  pub next_node_id : ℕ
  pub next_edge_id : ℕ
  pub version_store_root_page : ℕ
  pub feature_flags : ℕ
  pub subgraph_root_page : ℕ
  pub next_subgraph_id : ℕ
  pub hyperedge_root_page : ℕ
  pub next_hyperedge_id : ℕ
  pub catalog_page_id : ℕ
  pub node_data_root_page : ℕ
  pub edge_data_root_page : ℕ
  pub subgraph_data_root_page : ℕ
  pub hyperedge_data_root_page : ℕ
  pub version_data_root_page : ℕ

abbrev pub flag_temporal_core : ℕ
flag_temporal_core = 1

abbrev pub flag_temporal_edge : ℕ
flag_temporal_edge = 2

abbrev pub flag_subgraph : ℕ
flag_subgraph = 4

abbrev pub flag_hypergraph : ℕ
flag_hypergraph = 8

abbrev pub compiled_feature_flags : ℕ
compiled_feature_flags =
    bit_or (bit_or (bit_or (bit_or 0 flag_temporal_core) flag_temporal_edge) flag_subgraph)
      flag_hypergraph

unfoldable pub new_database_header : DatabaseHeader
new_database_header = record {
  magic = header_magic;
  version = format_version;
  page_count = first_data_page;
  root_node_page = 0;
  root_edge_page = 0;
  next_node_id = 1;
  next_edge_id = 1;
  version_store_root_page = 0;
  feature_flags = compiled_feature_flags;
  subgraph_root_page = 0;
  next_subgraph_id = 1;
  hyperedge_root_page = 0;
  next_hyperedge_id = 1;
  catalog_page_id = 0;
  node_data_root_page = 0;
  edge_data_root_page = 0;
  subgraph_data_root_page = 0;
  hyperedge_data_root_page = 0;
  version_data_root_page = 0;
}

-- The fields fill the bytes 0 to 103 of a page of zeros, in this order and without a gap.
unfoldable pub to_page : DatabaseHeader → Bytes
to_page h =
    to_le 4 h.magic
    ++ (to_le 4 h.version
        ++ (to_le 4 h.page_count
            ++ (to_le 4 h.root_node_page
                ++ (to_le 4 h.root_edge_page
                    ++ (to_le 8 h.next_node_id
                        ++ (to_le 8 h.next_edge_id
                            ++ (to_le 8 h.version_store_root_page
                                ++ (to_le 4 h.feature_flags
                                    ++ (to_le 8 h.subgraph_root_page
                                        ++ (to_le 8 h.next_subgraph_id
                                            ++ (to_le 8 h.hyperedge_root_page
                                                ++ (to_le 8 h.next_hyperedge_id
                                                    ++ (to_le 4 h.catalog_page_id
                                                        ++ (to_le 4 h.node_data_root_page
                                                            ++ (to_le 4 h.edge_data_root_page
                                                            ++ (to_le 4 h.subgraph_data_root_page
                                                            ++ (to_le 4 h.hyperedge_data_root_page
                                                            ++ (to_le 4 h.version_data_root_page
                                                            ++ replicate (page_size - 104)
                                                            0))))))))))))))))))

-- `if version >= since { … } else { default }`
abbrev pub since : ℕ → ℕ → ℕ → ℕ → ℕ
since first version value default = if leb first version then value else default

abbrev pub u32_at : ℕ → Bytes → ℕ
u32_at offset page = from_le (slice offset 4 page)

abbrev pub u64_at : ℕ → Bytes → ℕ
u64_at offset page = from_le (slice offset 8 page)

unfoldable pub from_page : Bytes → DatabaseHeader
from_page page =
    let version = u32_at 4 page in
    record {
      magic = u32_at 0 page;
      version = version;
      page_count = u32_at 8 page;
      root_node_page = u32_at 12 page;
      root_edge_page = u32_at 16 page;
      next_node_id = u64_at 20 page;
      next_edge_id = u64_at 28 page;
      version_store_root_page = since 2 version (u64_at 36 page) 0;
      feature_flags = since 3 version (u32_at 44 page) flag_temporal_core;
      subgraph_root_page = since 4 version (u64_at 48 page) 0;
      next_subgraph_id = since 4 version (u64_at 56 page) 0;
      hyperedge_root_page = since 5 version (u64_at 64 page) 0;
      next_hyperedge_id = since 5 version (u64_at 72 page) 0;
      catalog_page_id = since 6 version (u32_at 80 page) 0;
      node_data_root_page = since 6 version (u32_at 84 page) 0;
      edge_data_root_page = since 6 version (u32_at 88 page) 0;
      subgraph_data_root_page = since 7 version (u32_at 92 page) 0;
      hyperedge_data_root_page = since 7 version (u32_at 96 page) 0;
      version_data_root_page = since 7 version (u32_at 100 page) 0;
    }
