-- ===== src/Map/Types.antt =====
-- runtime/src/map/types.rs: the records of a site map. A float is its bit pattern, as the file has
-- it; a string is its bytes; a vector of features is a list of 128 floats.
use agentic_vision.Prelude.{ℕ, ◌+◌, ◌*◌, ◌/◌, ◌%◌, ◌^◌, List, Bool, ◌==◌}
use agentic_vision.Prelude.Int.{ℤ}
use agentic_vision.Map.Kinds.{PageType, EdgeType}

-- "CTX\0".
abbrev pub sitemap_magic : ℕ
sitemap_magic = 0x43545800

abbrev pub format_version : ℕ
format_version = 1

abbrev pub feature_dim : ℕ
feature_dim = 128

-- `flags & (1 << k) != 0`.
abbrev pub has_bit : ℕ → ℕ → Bool
has_bit k flags = ((flags / 2 ^ k) % 2) == 1

-- Bits of `NodeFlags`.
abbrev pub rendered : ℕ
rendered = 0

abbrev pub is_auth_required : ℕ → Bool
is_auth_required flags = has_bit 4 flags

-- Bits of `EdgeFlags`.
abbrev pub requires_auth : ℕ → Bool
requires_auth flags = has_bit 0 flags

abbrev pub changes_state : ℕ → Bool
changes_state flags = has_bit 2 flags

pub record NodeRecord : Type 0 where
  pub page_type : PageType
  pub confidence : ℕ
  pub freshness : ℕ
  pub flags : ℕ
  pub content_hash : ℕ
  pub rendered_at : ℕ
  pub http_status : ℕ
  pub depth : ℕ
  pub inbound_count : ℕ
  pub outbound_count : ℕ
  pub feature_norm : ℕ
  pub reserved : ℕ

pub record EdgeRecord : Type 0 where
  pub target_node : ℕ
  pub edge_type : EdgeType
  pub weight : ℕ
  pub flags : ℕ
  pub reserved : ℕ

pub record OpCode : Type 0 where
  pub category : ℕ
  pub action : ℕ

unfoldable pub as_u16 : OpCode → ℕ
as_u16 op = op.category * 256 + op.action

unfoldable pub from_u16 : ℕ → OpCode
from_u16 val = record { category = (val / 256) % 256; action = val % 256 }

pub record ActionRecord : Type 0 where
  pub opcode : OpCode
  pub target_node : ℤ
  pub cost_hint : ℕ
  pub risk : ℕ
  pub http_executable : Bool

pub record MapHeader : Type 0 where
  pub magic : ℕ
  pub format_version : ℕ
  pub domain : List ℕ
  pub mapped_at : ℕ
  pub node_count : ℕ
  pub edge_count : ℕ
  pub cluster_count : ℕ
  pub flags : ℕ

pub record SiteMap : Type 0 where
  pub header : MapHeader
  pub nodes : List NodeRecord
  pub edges : List EdgeRecord
  pub edge_index : List ℕ
  pub features : List (List ℕ)
  pub actions : List ActionRecord
  pub action_index : List ℕ
  pub cluster_assignments : List ℕ
  pub cluster_centroids : List (List ℕ)
  pub urls : List (List ℕ)
