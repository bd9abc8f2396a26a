-- ===== src/Map/Deserializer/Tables.antt =====
-- Each table of a map file is read back as it was written (runtime/src/map/serializer.rs and
-- deserializer.rs).
use agentic_vision.Prelude.{
  ℕ, ◌+◌, ◌*◌, ◌/◌, ◌%◌, ◌≡◌, ◌≢◌, refl, ap, ◌∙◌, List, [], ◌∷◌, ◌++◌, false, arith, length, All,
  le→leb, length-append, drop-append_length,
}
use agentic_vision.Map.Kinds.{page_type_from_u8-page_code, edge_type_from_u8-edge_code}
use agentic_vision.Map.Kinds.{page_code, edge_code, PageType, EdgeType}
use agentic_vision.Map.Types.{OpCode, as_u16, from_u16, ActionRecord, feature_dim}
use agentic_vision.Map.Utf8.{from_utf8_lossy_valid}
use agentic_vision.Map.Bytes.{
  ok, read_uint, write_uint, read_many, write_many, Restores, read_many-write_many, map_same,
  FitsBytes, read_uint-write_uint, read_i32_lem,
}
use agentic_vision.Map.Serializer.{write_node, write_edge, write_action, write_vector}
use agentic_vision.Map.Deserializer.{
  read_node, read_edge, read_action, read_vector, before_zero, read_url,
}
use agentic_vision.Map.Serializer.Fits.{FitsNode, FitsEdge, FitsAction, IsVector, IsUrl}

page_code-FitsBytes : (t : PageType) → FitsBytes 1 (page_code t)
unfolding page_code
page_code-FitsBytes t = ground arith

edge_code-FitsBytes : (t : EdgeType) → FitsBytes 1 (edge_code t)
unfolding edge_code
edge_code-FitsBytes t = ground arith

pub uint-Restores : (n : ℕ) → Restores (read_uint n) (write_uint n) (FitsBytes n) (λ v. v)
uint-Restores n = record { back = read_uint-write_uint n }

pub read_uints :
    (n k : ℕ) (vs rest : List ℕ)
    → length vs ≡ k
    → All (FitsBytes n) vs
    → read_many (read_uint n) k (write_many (write_uint n) vs rest) ≡ ok (vs, rest)
read_uints n k vs rest e h =
    read_many-write_many (uint-Restores n) k vs rest e h ∙ ap (λ t. ok (t, rest)) (map_same vs)

pub node-Restores : Restores read_node write_node FitsNode (λ node. node)
unfolding read_node write_node
node-Restores = record {
  back = λ node rest h.
      rw
        (
          read_uint-write_uint 1 (page_code node.page_type) _ (page_code-FitsBytes node.page_type),
          read_uint-write_uint 1 node.confidence _ h.confidence,
          read_uint-write_uint 1 node.freshness _ h.freshness,
          read_uint-write_uint 1 node.flags _ h.flags,
          read_uint-write_uint 4 node.content_hash _ h.content_hash,
          read_uint-write_uint 4 node.rendered_at _ h.rendered_at,
          read_uint-write_uint 2 node.http_status _ h.http_status,
          read_uint-write_uint 2 node.depth _ h.depth,
          read_uint-write_uint 2 node.inbound_count _ h.inbound_count,
          read_uint-write_uint 2 node.outbound_count _ h.outbound_count,
          read_uint-write_uint 4 node.feature_norm _ h.feature_norm,
          read_uint-write_uint 4 node.reserved _ h.reserved,
          page_type_from_u8-page_code node.page_type,
        )
        refl;
}

pub edge-Restores : Restores read_edge write_edge FitsEdge (λ edge. edge)
unfolding read_edge write_edge
edge-Restores = record {
  back = λ edge rest h.
      rw
        (
          read_uint-write_uint 4 edge.target_node _ h.target_node,
          read_uint-write_uint 1 (edge_code edge.edge_type) _ (edge_code-FitsBytes edge.edge_type),
          read_uint-write_uint 1 edge.weight _ h.weight,
          read_uint-write_uint 1 edge.flags _ h.flags,
          read_uint-write_uint 1 edge.reserved _ h.reserved,
          edge_type_from_u8-edge_code edge.edge_type,
        )
        refl;
}

pub from_u16-as_u16 :
    (op : OpCode) → FitsBytes 1 op.category → FitsBytes 1 op.action → from_u16 (as_u16 op) ≡ op
unfolding from_u16 as_u16
from_u16-as_u16 op h k =
    let category : ((op.category * 256 + op.action) / 256) % 256 ≡ op.category = omega arith in
    let action : (op.category * 256 + op.action) % 256 ≡ op.action = omega arith in
    rw (category, action) refl

as_u16-FitsBytes :
    (op : OpCode) → FitsBytes 1 op.category → FitsBytes 1 op.action → FitsBytes 2 (as_u16 op)
unfolding as_u16
as_u16-FitsBytes op h k = omega arith

-- The file does not say whether an action can be executed over HTTP.
abbrev pub without_http : ActionRecord → ActionRecord
without_http action = record {
  opcode = action.opcode;
  target_node = action.target_node;
  cost_hint = action.cost_hint;
  risk = action.risk;
  http_executable = false;
}

pub action-Restores : Restores read_action write_action FitsAction without_http
unfolding read_action write_action
action-Restores = record {
  back = λ action rest h.
      let op = action.opcode in
      rw
        (
          read_uint-write_uint 2 (as_u16 op) _ (as_u16-FitsBytes op h.category h.action_byte),
          read_i32_lem action.target_node _ h.target_node,
          read_uint-write_uint 1 action.cost_hint _ h.cost_hint,
          read_uint-write_uint 1 action.risk _ h.risk,
          from_u16-as_u16 op h.category h.action_byte,
        )
        refl;
}

IsVector-Restores : Restores read_vector write_vector IsVector (λ v. v)
IsVector-Restores = record { back = λ v rest h. read_uints 4 feature_dim v rest h.dim h.floats }

pub read_vectors :
    (k : ℕ) (vs : List (List ℕ)) (rest : List ℕ)
    → length vs ≡ k
    → All IsVector vs
    → read_many read_vector k (write_many write_vector vs rest) ≡ ok (vs, rest)
read_vectors k vs rest e h =
    read_many-write_many IsVector-Restores k vs rest e h ∙ ap (λ t. ok (t, rest)) (map_same vs)

before_zero-append :
    (url rest : List ℕ) → All (λ b. b ≢ 0) url → before_zero (url ++ 0 ∷ rest) ≡ url
unfolding before_zero
before_zero-append [] rest h = refl
before_zero-append (b ∷ bs) rest h =
    let ih = before_zero-append bs rest h.1 in let nonzero = h.0 in ground arith

-- A URL that stands at the offset in the data is read from there.
pub read_url_lem :
    (before url rest : List ℕ)
    → IsUrl url
    → read_url (before ++ (url ++ 0 ∷ rest)) (length before) ≡ ok url
unfolding read_url
read_url_lem before url rest h =
    rw
      (
        le→leb (length before) (length (before ++ (url ++ 0 ∷ rest)))
            (omega (arith, length-append before (url ++ 0 ∷ rest))),
        drop-append_length before (url ++ 0 ∷ rest),
        before_zero-append url rest h.no_nul,
        from_utf8_lossy_valid url h.valid,
      )
      refl
