-- ===== src/Map/Serializer.antt =====
-- runtime/src/map/serializer.rs: `SiteMap::serialize`.
pub mod Fits
use agentic_vision.Prelude.{ℕ, ◌+◌, ◌%◌, ◌^◌, List, [], ◌∷◌, ◌++◌, length}
use agentic_vision.Prelude.Bytes.{to_le_bytes}
use agentic_vision.Map.Kinds.{page_code, edge_code}
use agentic_vision.Map.Types.{NodeRecord, EdgeRecord, as_u16, ActionRecord, MapHeader, SiteMap}
use agentic_vision.Map.Bytes.{write_uint, write_many, i32_bits}
use agentic_vision.Map.Crc.{crc32}

unfoldable pub write_header : MapHeader → List ℕ → List ℕ
write_header header rest = write_uint 4 header.magic (
    write_uint 2 header.format_version (
      write_uint 2 (length header.domain) (
        header.domain
        ++ write_uint 8 header.mapped_at (
            write_uint 4 header.node_count (
              write_uint 4 header.edge_count
                (write_uint 2 header.cluster_count (write_uint 2 header.flags rest)))))))

unfoldable pub write_node : NodeRecord → List ℕ → List ℕ
write_node node rest = write_uint 1 (page_code node.page_type) (
    write_uint 1 node.confidence (
      write_uint 1 node.freshness (
        write_uint 1 node.flags (
          write_uint 4 node.content_hash (
            write_uint 4 node.rendered_at (
              write_uint 2 node.http_status (
                write_uint 2 node.depth (
                  write_uint 2 node.inbound_count (
                    write_uint 2 node.outbound_count
                      (write_uint 4 node.feature_norm (write_uint 4 node.reserved rest)))))))))))

unfoldable pub write_edge : EdgeRecord → List ℕ → List ℕ
write_edge edge rest = write_uint 4 edge.target_node (
    write_uint 1 (edge_code edge.edge_type)
      (write_uint 1 edge.weight (write_uint 1 edge.flags (write_uint 1 edge.reserved rest))))

unfoldable pub write_action : ActionRecord → List ℕ → List ℕ
write_action action rest = write_uint 2 (as_u16 action.opcode) (
    write_uint 4 (i32_bits action.target_node)
      (write_uint 1 action.cost_hint (write_uint 1 action.risk rest)))

abbrev pub write_vector : List ℕ → List ℕ → List ℕ
write_vector vector rest = write_many (write_uint 4) vector rest

-- The bytes of a URL and its terminator.
abbrev pub write_url : List ℕ → List ℕ → List ℕ
write_url url rest = url ++ 0 ∷ rest

abbrev pub url_data_of : List (List ℕ) → List ℕ
url_data_of urls = write_many write_url urls []

-- Where each URL starts, if `at` bytes stand before them.
unfoldable pub url_offsets : ℕ → List (List ℕ) → List ℕ
url_offsets at_byte [] = []
url_offsets at_byte (url ∷ urls) =
    (at_byte % 2 ^ 32) ∷ url_offsets (at_byte + (length url + 1)) urls

unfoldable pub write_urls : List (List ℕ) → List ℕ
unfolding url_offsets
write_urls urls =
    write_uint 4 (length (url_data_of urls))
      (url_data_of urls ++ write_many (write_uint 4) (url_offsets 0 urls) [])

unfoldable pub write_to : SiteMap → List ℕ
unfolding write_header write_node write_edge write_action write_urls
write_to site = write_header site.header (
    write_many write_node site.nodes (
      write_many write_edge site.edges (
        write_many (write_uint 4) site.edge_index (
          write_many write_vector site.features (
            write_uint 4 (length site.actions) (
              write_many write_action site.actions (
                write_many (write_uint 4) site.action_index (
                  write_many (write_uint 2) site.cluster_assignments
                    (write_many write_vector site.cluster_centroids (write_urls site.urls))))))))))

unfoldable pub serialize : SiteMap → List ℕ
unfolding write_to crc32
serialize site = let buf = write_to site in buf ++ to_le_bytes 4 (crc32 buf)
