-- ===== src/Pipeline/Tests.antt =====
-- kernel/pipeline_graph.c: a sensor and a spike engine.
use neuro_spark.Prelude.{arith, false, [], ◌∷◌}
use neuro_spark.Pmm.{Pmm}
use neuro_spark.Pipeline.{Pipeline, pipeline_add_node, pipeline_link}
use neuro_spark.Pipeline.Ids.{IsValid, AddedTo, LinkedTo, pipeline_add_node_lem, pipeline_link_lem}

abbrev zeroed : Pipeline
zeroed = record {
  nodes = λ _. record { id = 0; node_type = 0; name = []; active = false };
  edges = λ _. record {
    id = 0;
    source_node_id = 0;
    dest_node_id = 0;
    ring_buffer = 0;
    ring_size = 0;
    active = false;
  };
  next_node_id = 1;
  next_edge_id = 1;
  running = false;
}

zeroed-IsValid : IsValid zeroed
zeroed-IsValid = record {
  given = λ i a e. ground (arith, e);
  distinct = λ i j a b e f g. ground (arith, e);
}

pipeline_add_node_lem_example :
    AddedTo zeroed (pipeline_add_node 3 (115 ∷ []) zeroed)
    × IsValid (pipeline_add_node 3 (115 ∷ []) zeroed).1
pipeline_add_node_lem_example =
    pipeline_add_node_lem 3 (115 ∷ []) zeroed zeroed-IsValid (omega arith)

abbrev no_pages : Pmm
no_pages = record { bitmap = λ _. 255; alloc_calls = 0; free_calls = 0 }

pipeline_link_lem_example : LinkedTo 1 2 zeroed no_pages (pipeline_link 1 2 zeroed no_pages)
pipeline_link_lem_example = pipeline_link_lem 1 2 zeroed no_pages
