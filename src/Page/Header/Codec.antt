-- ===== src/Page/Header/Codec.antt =====
-- The database header is read back from its page, and an older one is migrated.
use cypher_lite.Prelude.{ℕ, ◌<◌, ◌≡◌, arith, length, length-replicate, u32_mod, u64_mod}
use cypher_lite.Endian.{from_le-to_le_32, from_le-to_le_64}
use cypher_lite.Wal.Format.{page_size}
use cypher_lite.Page.Header.{DatabaseHeader, to_page, from_page, since, flag_temporal_core}

-- Every field fits its width.
pub record Fits (h : DatabaseHeader) : Type 0 where
  pub magic : h.magic < u32_mod
  pub version : h.version < u32_mod
  pub page_count : h.page_count < u32_mod
  pub root_node_page : h.root_node_page < u32_mod
  pub root_edge_page : h.root_edge_page < u32_mod
  pub next_node_id : h.next_node_id < u64_mod
  pub next_edge_id : h.next_edge_id < u64_mod
  pub version_store_root_page : h.version_store_root_page < u64_mod
  pub feature_flags : h.feature_flags < u32_mod
  pub subgraph_root_page : h.subgraph_root_page < u64_mod
  pub next_subgraph_id : h.next_subgraph_id < u64_mod
  pub hyperedge_root_page : h.hyperedge_root_page < u64_mod
  pub next_hyperedge_id : h.next_hyperedge_id < u64_mod
  pub catalog_page_id : h.catalog_page_id < u32_mod
  pub node_data_root_page : h.node_data_root_page < u32_mod
  pub edge_data_root_page : h.edge_data_root_page < u32_mod
  pub subgraph_data_root_page : h.subgraph_data_root_page < u32_mod
  pub hyperedge_data_root_page : h.hyperedge_data_root_page < u32_mod
  pub version_data_root_page : h.version_data_root_page < u32_mod

pub length-to_page : (h : DatabaseHeader) → length (to_page h) ≡ page_size
unfolding to_page
length-to_page h = omega (arith, length-replicate {A = ℕ} 3992 0)

-- What a program of this version keeps of a header of version `h.version`: each field from the
-- version that introduced it on, and its default before.
unfoldable pub migrated : DatabaseHeader → DatabaseHeader
migrated h = record h {
  version_store_root_page = since 2 h.version h.version_store_root_page 0;
  feature_flags = since 3 h.version h.feature_flags flag_temporal_core;
  subgraph_root_page = since 4 h.version h.subgraph_root_page 0;
  next_subgraph_id = since 4 h.version h.next_subgraph_id 0;
  hyperedge_root_page = since 5 h.version h.hyperedge_root_page 0;
  next_hyperedge_id = since 5 h.version h.next_hyperedge_id 0;
  catalog_page_id = since 6 h.version h.catalog_page_id 0;
  node_data_root_page = since 6 h.version h.node_data_root_page 0;
  edge_data_root_page = since 6 h.version h.edge_data_root_page 0;
  subgraph_data_root_page = since 7 h.version h.subgraph_data_root_page 0;
  hyperedge_data_root_page = since 7 h.version h.hyperedge_data_root_page 0;
  version_data_root_page = since 7 h.version h.version_data_root_page 0;
}

-- Reading a page that was written keeps what its version has, and takes defaults for the rest.
pub from_page-to_page : (h : DatabaseHeader) → Fits h → from_page (to_page h) ≡ migrated h
unfolding from_page to_page migrated
from_page-to_page h v = λ i.
    let version = from_le-to_le_32 h.version v.version i in
    record {
      magic = from_le-to_le_32 h.magic v.magic i;
      version = version;
      page_count = from_le-to_le_32 h.page_count v.page_count i;
      root_node_page = from_le-to_le_32 h.root_node_page v.root_node_page i;
      root_edge_page = from_le-to_le_32 h.root_edge_page v.root_edge_page i;
      next_node_id = from_le-to_le_64 h.next_node_id v.next_node_id i;
      next_edge_id = from_le-to_le_64 h.next_edge_id v.next_edge_id i;
      version_store_root_page =
          since 2 version (from_le-to_le_64 h.version_store_root_page v.version_store_root_page i)
            0;
      feature_flags =
          since 3 version (from_le-to_le_32 h.feature_flags v.feature_flags i) flag_temporal_core;
      subgraph_root_page =
          since 4 version (from_le-to_le_64 h.subgraph_root_page v.subgraph_root_page i) 0;
      next_subgraph_id =
          since 4 version (from_le-to_le_64 h.next_subgraph_id v.next_subgraph_id i) 0;
      hyperedge_root_page =
          since 5 version (from_le-to_le_64 h.hyperedge_root_page v.hyperedge_root_page i) 0;
      next_hyperedge_id =
          since 5 version (from_le-to_le_64 h.next_hyperedge_id v.next_hyperedge_id i) 0;
      catalog_page_id = since 6 version (from_le-to_le_32 h.catalog_page_id v.catalog_page_id i) 0;
      node_data_root_page =
          since 6 version (from_le-to_le_32 h.node_data_root_page v.node_data_root_page i) 0;
      edge_data_root_page =
          since 6 version (from_le-to_le_32 h.edge_data_root_page v.edge_data_root_page i) 0;
      subgraph_data_root_page =
          since 7 version (from_le-to_le_32 h.subgraph_data_root_page v.subgraph_data_root_page i)
            0;
      hyperedge_data_root_page =
          since 7 version (from_le-to_le_32 h.hyperedge_data_root_page v.hyperedge_data_root_page i)
            0;
      version_data_root_page =
          since 7 version (from_le-to_le_32 h.version_data_root_page v.version_data_root_page i) 0;
    }
