-- ===== src/Pipeline/Ids.antt =====
-- kernel/pipeline_graph.c: the numbers of nodes and edges, and the pages of the edges.
use neuro_spark.Prelude.{
  ℕ, ◌+◌, ◌<◌, ◌≡◌, refl, ◌≢◌, ◌⊎◌, inl, inr, true, false, not, arith, List, update_ne, find_index,
  find_index-some, find_index-none, Option-cases, u32, ==_self,
}
use neuro_spark.Prelude.Int.{ℤ, negsuc, to_int}
use neuro_spark.Pmm.{Pmm}
use neuro_spark.Pmm.Alloc.{AllocatedFrom, pmm_alloc_page_lem}
use neuro_spark.Pipeline.{
  Pipeline, pipeline_init, add_node_at, pipeline_add_node, link_at, pipeline_link,
}

-- Nodes in use have different numbers, all given out already.
pub record IsValid (p : Pipeline) : Type 0 where
  pub given : (i : ℕ) → i < 16 → (p.nodes i).active ≡ true → (p.nodes i).id < p.next_node_id
  pub distinct :
      (i j : ℕ)
      → i < 16
      → j < 16
      → (p.nodes i).active ≡ true
      → (p.nodes j).active ≡ true
      → (p.nodes i).id ≡ (p.nodes j).id
      → i ≡ j

pub init-IsValid : (p : Pipeline) → IsValid (pipeline_init p)
unfolding pipeline_init
init-IsValid p = record {
  given = λ i a e. ground (arith, e);
  distinct = λ i j a b e f g. ground (arith, e);
}

-- What adding a node may answer.
pub AddedTo : Pipeline → ℤ × Pipeline → Type 0
AddedTo p (r, p') =
    ((r ≡ negsuc 0) × (p' ≡ p) × ((i : ℕ) → i < 16 → (p.nodes i).active ≡ true))
    ⊎ ((r ≡ to_int p.next_node_id)
        × ((i : ℕ) → i < 16 → (p.nodes i).active ≡ true → p'.nodes i ≡ p.nodes i)
        × ((i : ℕ) × (i < 16)
            × ((p.nodes i).active ≡ false)
            × ((p'.nodes i).active ≡ true)
            × ((p'.nodes i).id ≡ p.next_node_id)))

-- Until the counter is used up, `pipeline_add_node` keeps the numbers distinct, takes a free slot
-- for a node with a new number, which it answers as an `int`, and leaves the nodes in use as they
-- are; it does nothing, and answers -1, only if all 16 slots are in use.
pub pipeline_add_node_lem :
    (node_type : ℕ) (name : List ℕ) (p : Pipeline)
    → IsValid p
    → p.next_node_id + 1 < u32
    → AddedTo p (pipeline_add_node node_type name p)
      × IsValid (pipeline_add_node node_type name p).1
unfolding pipeline_add_node add_node_at AddedTo
pipeline_add_node_lem node_type name p v h =
    elim (Option-cases (find_index (λ i. not (p.nodes i).active) 16 0)) [
      | inl e ↦ rw e (
        inl (
          refl,
          refl,
          λ i a.
              let f =
                find_index-none (λ i. not (p.nodes i).active) 16 0 e i (omega arith)
                  (omega arith) in
              ground (arith, f),
        ),
        v,
      )
      | inr (k, e) ↦
          let f = find_index-some (λ i. not (p.nodes i).active) 16 0 e in
          let k_lt : k < 16 = omega arith in
          let free : (p.nodes k).active ≡ false = ground (arith, f.2) in
          rw e (
            inr (
              refl,
              λ i a b. let ne : k ≢ i = λ q. ground (arith, free) in update_ne p.nodes k i _ ne,
              (k, k_lt, free, ground arith, ground arith),
            ),
            record {
              given = λ i a b. ground (arith, v.given i);
              distinct = λ i j a b c d q. ground (arith, v.given i, v.given j, v.distinct i j);
            },
          )
    ]

-- What linking may answer: -1 and nothing done, or the next number, as an `int`, and the edge in a
-- slot that was free, with what was allocated as its ring.
pub LinkedTo : ℕ → ℕ → Pipeline → Pmm → ℤ × Pipeline × Pmm → Type 0
LinkedTo src dest p pmm (r, p', pmm') =
    ((r ≡ negsuc 0) × (p' ≡ p) × (pmm' ≡ pmm) × ((i : ℕ) → i < 32 → (p.edges i).active ≡ true))
    ⊎ ((r ≡ to_int p.next_edge_id)
        × ((i : ℕ) → i < 32 → (p.edges i).active ≡ true → p'.edges i ≡ p.edges i)
        × ((i : ℕ) × (i < 32)
            × ((p.edges i).active ≡ false)
            × ((p'.edges i).active ≡ true)
            × ((p'.edges i).id ≡ p.next_edge_id)
            × ((p'.edges i).source_node_id ≡ src)
            × ((p'.edges i).dest_node_id ≡ dest)
            × AllocatedFrom pmm ((p'.edges i).ring_buffer, pmm')))

-- `pipeline_link` puts the edge between the two given numbers, of nodes or not, into a free slot,
-- leaves the edges in use as they are, and answers its number as an `int`, which for 2^32 - 1 is -1;
-- its ring is what `pmm_alloc_page` answers, so null if no page is left, or if that was page 0,
-- which is no failure. It does nothing, and answers -1, only if all 32 slots are in use.
pub pipeline_link_lem :
    (src dest : ℕ) (p : Pipeline) (pmm : Pmm)
    → LinkedTo src dest p pmm (pipeline_link src dest p pmm)
unfolding pipeline_link link_at LinkedTo
pipeline_link_lem src dest p pmm =
    elim (Option-cases (find_index (λ i. not (p.edges i).active) 32 0)) [
      | inl e ↦ rw e (
          inl (
            refl,
            refl,
            refl,
            λ i a.
                let f =
                  find_index-none (λ i. not (p.edges i).active) 32 0 e i (omega arith)
                    (omega arith) in
                ground (arith, f),
          ))
      | inr (k, e) ↦
          let f = find_index-some (λ i. not (p.edges i).active) 32 0 e in
          let k_lt : k < 32 = omega arith in
          let free : (p.edges k).active ≡ false = ground (arith, f.2) in
          rw e (
            inr (
              refl,
              λ i a b. let ne : k ≢ i = λ q. ground (arith, free) in update_ne p.edges k i _ ne,
              (
                k,
                k_lt,
                free,
                ground arith,
                ground arith,
                ground arith,
                ground arith,
                rw (==_self k) (pmm_alloc_page_lem pmm),
              ),
            ))
    ]
