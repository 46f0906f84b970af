-- ===== src/PageCache/Tests.antt =====
-- The cache over a drive of numbered sectors: runs, and the theorems at an input.
use neuro_spark.Prelude.{
  ℕ, ◌≡◌, refl, true, false, Option, none, some, List, [], ◌∷◌, update, arith, ◌==◌, find_index,
}
use neuro_spark.PageCache.Device.{BlockDevice, IsReliable}
use neuro_spark.PageCache.{
  Cache, io_ok, read, write, flush_all, evict, init, clear_lines, find_line, pick_loop,
  pick_victim_line, flush_from, flush_line,
}
use neuro_spark.PageCache.Coherence.{IsCoherent, contents}
use neuro_spark.PageCache.Victim.{pick_victim_line-rounds}
use neuro_spark.PageCache.Client.{
  seen, fresh-IsValid, run, run_map, run_refines, Op, reads, writes, flushes,
}
use neuro_spark.PageCache.Loss.{evict_loses}

-- Sectors are numbers; every sector of the new drive holds 3.
abbrev drive : BlockDevice
drive = record {
  Sector = ℕ;
  Disk = ℕ → Option ℕ;
  read_sector = λ d l. d l;
  write_sector = λ d l w. (true, update d l (some w));
}

-- A drive that refuses every write.
abbrev read_only : BlockDevice
read_only = record {
  Sector = ℕ;
  Disk = ℕ → Option ℕ;
  read_sector = λ d l. d l;
  write_sector = λ d l w. (false, d);
}

drive-IsReliable : IsReliable drive
drive-IsReliable = record {
  reads_back = λ d l w. ground arith;
  keeps_others = λ d l o w n. ground arith;
}

abbrev boot : Cache ℕ (ℕ → Option ℕ)
boot = record {
  lines = λ _. record { valid = true; dirty = true; ref = true; lba = 7; words = 0 };
  clock_hand = 5;
  initialized = false;
  stats = record {
    read_hits = 0;
    read_misses = 0;
    write_hits = 0;
    write_misses = 0;
    evictions = 0;
    buffered_writes = 0;
    flush_writes = 0;
    dirty_lines = 0;
  };
  disk = λ l. some 3;
}

abbrev script : List (Op drive)
script = reads 4 ∷ writes 4 9 ∷ reads 4 ∷ flushes ∷ reads 5 ∷ []

run_refines_example : run drive boot script ≡ run_map drive (seen drive boot) script
run_refines_example = run_refines drive drive-IsReliable script boot (fresh-IsValid drive boot refl)

script_outcome :
    run drive boot script
    ≡ (io_ok, some 3) ∷ (io_ok, none) ∷ (io_ok, some 9) ∷ (io_ok, none) ∷ (io_ok, some 3) ∷ []
unfolding run read write flush_all init clear_lines find_line find_index pick_victim_line pick_loop
    flush_from flush_line
script_outcome = refl

pick_victim_line-rounds_example : pick_loop drive 40 boot ≡ pick_victim_line drive boot
pick_victim_line-rounds_example = pick_victim_line-rounds drive 40 boot (omega arith) (omega arith)

-- Line 0 holds 11 for sector 7, where the drive holds 3.
abbrev unsaved : Cache ℕ (ℕ → Option ℕ)
unsaved = record boot {
  lines = λ i. record { valid = i == 0; dirty = true; ref = false; lba = 7; words = 11 };
  initialized = true;
}

unsaved-IsCoherent : IsCoherent read_only unsaved
unsaved-IsCoherent = record {
  hand_in = omega arith;
  unique = λ i j l g h. ground arith;
  clean = λ i l h e. cc;
}

evict_loses_example : contents read_only (evict read_only unsaved 0).1 7 ≡ some 3
evict_loses_example =
    evict_loses read_only unsaved 0 7 unsaved-IsCoherent (omega arith, refl, refl) refl
