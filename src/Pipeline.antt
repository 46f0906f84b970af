-- ===== src/Pipeline.antt =====
-- kernel/pipeline_graph.c: the table of nodes and the table of edges, whose rings are pages of
-- kernel/pmm.c. A number is 32 bits that are answered as an `int`, and the answer of a full table is
-- -1.
pub mod Ids
mod Tests
use neuro_spark.Prelude.{
  ℕ, zero, suc, ◌+◌, Bool, true, false, not, Option, none, some, List, [], ◌∷◌, if◌then◌else◌,
  update, find_index, take, inc32,
}
use neuro_spark.Prelude.Int.{ℤ, negsuc, to_int}
use neuro_spark.Pmm.{Pmm, pmm_alloc_page}

abbrev pub max_nodes : ℕ
max_nodes = 16

abbrev pub max_edges : ℕ
max_edges = 32

pub record PipelineNode : Type 0 where
  pub id : ℕ
  pub node_type : ℕ
  pub name : List ℕ
  pub active : Bool

pub record PipelineEdge : Type 0 where
  pub id : ℕ
  pub source_node_id : ℕ
  pub dest_node_id : ℕ
  -- 0 is the null pointer.
  pub ring_buffer : ℕ
  pub ring_size : ℕ
  pub active : Bool

pub record Pipeline : Type 0 where
  pub nodes : ℕ → PipelineNode
  pub edges : ℕ → PipelineEdge
  pub next_node_id : ℕ
  pub next_edge_id : ℕ
  pub running : Bool

pub pipeline_init : Pipeline → Pipeline
pipeline_init p = record {
  nodes = λ i. record (p.nodes i) { active = false };
  edges = λ i. record (p.edges i) { active = false };
  next_node_id = 1;
  next_edge_id = 1;
  running = false;
}

-- The node is stored in slot `i`.
pub add_node_at : ℕ → List ℕ → Pipeline → Option ℕ → ℤ × Pipeline
add_node_at node_type name p none = (negsuc 0, p)
add_node_at node_type name p (some i) = (
  to_int p.next_node_id,
  record p {
    nodes =
        update p.nodes i (record {
          id = p.next_node_id;
          node_type = node_type;
          name = take 15 name;
          active = true;
        });
    next_node_id = inc32 p.next_node_id;
  },
)

pub pipeline_add_node : ℕ → List ℕ → Pipeline → ℤ × Pipeline
unfolding add_node_at
pipeline_add_node node_type name p =
    add_node_at node_type name p (find_index (λ i. not (p.nodes i).active) max_nodes 0)

pub link_at : ℕ → ℕ → Pipeline → Pmm → Option ℕ → ℤ × Pipeline × Pmm
link_at src_id dest_id p pmm none = (negsuc 0, p, pmm)
link_at src_id dest_id p pmm (some i) =
    let (page, pmm') = pmm_alloc_page pmm in
    (
      to_int p.next_edge_id,
      record p {
        edges = update p.edges i (record {
          id = p.next_edge_id;
          source_node_id = src_id;
          dest_node_id = dest_id;
          ring_buffer = page;
          ring_size = 4096;
          active = true;
        });
        next_edge_id = inc32 p.next_edge_id;
      },
      pmm',
    )

pub pipeline_link : ℕ → ℕ → Pipeline → Pmm → ℤ × Pipeline × Pmm
unfolding link_at
pipeline_link src_id dest_id p pmm =
    link_at src_id dest_id p pmm (find_index (λ i. not (p.edges i).active) max_edges 0)

pub pipeline_start : Pipeline → Bool × Pipeline
pipeline_start p = if p.running then (false, p) else (true, record p { running = true })

pub pipeline_stop : Pipeline → Bool × Pipeline
pipeline_stop p = if p.running then (true, record p { running = false }) else (false, p)

-- The loop of `pipeline_get_nodes`, with room for `room` nodes, `n` slots from `i` on.
pub collect_nodes : ℕ → ℕ → ℕ → Pipeline → List PipelineNode
collect_nodes room zero i p = []
collect_nodes zero (suc n) i p = []
collect_nodes (suc room) (suc n) i p =
    if (p.nodes i).active
    then p.nodes i ∷ collect_nodes room n (i + 1) p
    else collect_nodes (suc room) n (i + 1) p

pub pipeline_get_nodes : ℕ → Pipeline → List PipelineNode
pipeline_get_nodes max_count p = collect_nodes max_count max_nodes 0 p

pub collect_edges : ℕ → ℕ → ℕ → Pipeline → List PipelineEdge
collect_edges room zero i p = []
collect_edges zero (suc n) i p = []
collect_edges (suc room) (suc n) i p =
    if (p.edges i).active
    then p.edges i ∷ collect_edges room n (i + 1) p
    else collect_edges (suc room) n (i + 1) p

pub pipeline_get_edges : ℕ → Pipeline → List PipelineEdge
pipeline_get_edges max_count p = collect_edges max_count max_edges 0 p
