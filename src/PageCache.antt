-- ===== src/PageCache.antt =====
-- kernel/page_cache.c: the write-back sector cache with clock replacement, over a block device.
pub mod Device
pub mod Coherence
pub mod Victim
pub mod Fill
pub mod Read
pub mod Write
pub mod Client
pub mod Loss
mod Tests
use neuro_spark.Prelude.{
  ℕ, zero, suc, ◌+◌, ◌*◌, ◌%◌, Bool, true, false, ◌&&◌, Option, none, some, ltb, ◌==◌,
  if◌then◌else◌, update, find_index, inc32,
}
use Device.{BlockDevice}

abbrev pub cache_lines : ℕ
cache_lines = 32

pub record CacheLine (Sector : Type 0) : Type 0 where
  pub valid : Bool
  pub dirty : Bool
  pub ref : Bool
  pub lba : ℕ
  pub words : Sector

pub record PageCacheStats : Type 0 where
  pub read_hits : ℕ
  pub read_misses : ℕ
  pub write_hits : ℕ
  pub write_misses : ℕ
  pub evictions : ℕ
  pub buffered_writes : ℕ
  pub flush_writes : ℕ
  pub dirty_lines : ℕ

-- The file's static variables, and the device that they front.
pub record Cache (Sector Disk : Type 0) : Type 0 where
  pub lines : ℕ → CacheLine Sector
  pub clock_hand : ℕ
  pub initialized : Bool
  pub stats : PageCacheStats
  pub disk : Disk

-- `DISK_IO_OK` and `DISK_IO_ERR_NO_DEVICE`.
pub data IoStatus : Type 0 where
  io_ok no_device : IoStatus

module _ (dev : BlockDevice) where
  open dev use {Sector, Disk, read_sector, write_sector}

  abbrev pub PageCache : Type 0
  PageCache = Cache Sector Disk

  abbrev pub set_line : PageCache → ℕ → CacheLine Sector → PageCache
  set_line c i l = record c { lines = update c.lines i l }

  abbrev pub caches : PageCache → ℕ → ℕ → Bool
  caches c lba i = (c.lines i).valid && (c.lines i).lba == lba

  -- `none` is the -1 of the source.
  pub find_line : PageCache → ℕ → Option ℕ
  find_line c lba = find_index (caches c lba) cache_lines 0

  -- The status of the write is dropped, as in the source.
  pub flush_line : PageCache → ℕ → PageCache
  flush_line c idx =
      let l = c.lines idx in
      if ltb idx cache_lines
      then if l.valid && l.dirty
        then record c {
          lines = update c.lines idx (record l { dirty = false });
          stats = record c.stats { flush_writes = inc32 c.stats.flush_writes };
          disk = (write_sector c.disk l.lba l.words).1;
        }
        else c
      else c

  -- `flush_line(idx); valid = 0; evictions++; return idx;`
  pub evict : PageCache → ℕ → ℕ × PageCache
  evict c idx =
      let c' = flush_line c idx in
      (
        idx,
        record c' {
          lines = update c'.lines idx (record (c'.lines idx) { valid = false });
          stats = record c'.stats { evictions = inc32 c'.stats.evictions };
        },
      )

  -- The loop of `pick_victim_line` with the rounds left, and the fallback behind it.
  pub pick_loop : ℕ → PageCache → ℕ × PageCache
  pick_loop zero c = evict c c.clock_hand
  pick_loop (suc n) c =
      let idx = c.clock_hand in
      let c' : PageCache = record c { clock_hand = (idx + 1) % cache_lines } in
      elim (c.lines idx).valid [
        | false ↦ (idx, c')
        | true ↦ elim (c.lines idx).ref [
          | true ↦ pick_loop n (set_line c' idx (record (c.lines idx) { ref = false }))
          | false ↦ evict c' idx
        ]
      ]

  pub pick_victim_line : PageCache → ℕ × PageCache
  pick_victim_line c = pick_loop (cache_lines * 2) c

  -- The loop of `page_cache_init` over the lines, with the lines left.
  clear_lines : ℕ → (ℕ → CacheLine Sector) → ℕ → CacheLine Sector
  clear_lines n lines i =
      if ltb i n
      then record (lines i) { valid = false; dirty = false; ref = false; lba = 0 }
      else lines i

  pub init : PageCache → PageCache
  unfolding clear_lines
  init c =
      if c.initialized
      then c
      else record c { lines = clear_lines cache_lines c.lines; clock_hand = 0; initialized = true }

  abbrev count_miss : PageCache → PageCache
  count_miss c = record c { stats = record c.stats { read_misses = inc32 c.stats.read_misses } }

  -- The read miss: a victim is filled from the device. A failed read leaves the line empty (the
  -- words that it may have stored there are never looked at).
  fill_line : ℕ → ℕ × PageCache → (IoStatus × Option Sector) × PageCache
  fill_line lba (idx, c) = elim (read_sector c.disk lba) [
    | none ↦ (
      (no_device, none),
      set_line c idx (record (c.lines idx) { valid = false; dirty = false; ref = false }),
    )
    | some w ↦ (
      (io_ok, some w),
      set_line c idx (record { valid = true; dirty = false; ref = true; lba = lba; words = w }),
    )
  ]

  pub read_found : PageCache → ℕ → Option ℕ → (IoStatus × Option Sector) × PageCache
  unfolding fill_line
  read_found c lba (some i) = (
    (io_ok, some (c.lines i).words),
    record c {
      lines = update c.lines i (record (c.lines i) { ref = true });
      stats = record c.stats { read_hits = inc32 c.stats.read_hits };
    },
  )
  read_found c lba none = fill_line lba (pick_victim_line (count_miss c))

  -- `page_cache_read_sector`, the buffer not NULL: the status and what the buffer receives.
  pub read : PageCache → ℕ → (IoStatus × Option Sector) × PageCache
  unfolding read_found
  read c lba = let c' = init c in read_found c' lba (find_line c' lba)

  -- `copy_sector` into line `idx`, `dirty = 1`, `ref = 1`, `buffered_writes++`.
  abbrev store_words : Sector → ℕ → PageCache → PageCache
  store_words w idx c = record c {
    lines = update c.lines idx (record (c.lines idx) { words = w; dirty = true; ref = true });
    stats = record c.stats { buffered_writes = inc32 c.stats.buffered_writes };
  }

  claim_line : ℕ → Sector → ℕ × PageCache → PageCache
  claim_line lba w (idx, c) =
      store_words w idx (set_line c idx (record (c.lines idx) { valid = true; lba = lba }))

  pub write_found : PageCache → ℕ → Sector → Option ℕ → PageCache
  unfolding claim_line
  write_found c lba w (some i) =
      store_words w i
        (record c { stats = record c.stats { write_hits = inc32 c.stats.write_hits } })
  write_found c lba w none = claim_line lba w (
      pick_victim_line
        (record c { stats = record c.stats { write_misses = inc32 c.stats.write_misses } }))

  -- `page_cache_write_sector`, the buffer not NULL: it always answers `DISK_IO_OK`.
  pub write : PageCache → ℕ → Sector → IoStatus × PageCache
  unfolding write_found
  write c lba w = let c' = init c in (io_ok, write_found c' lba w (find_line c' lba))

  -- `flush_line(i)` for the `n` lines from `i` on.
  pub flush_from : ℕ → ℕ → PageCache → PageCache
  flush_from zero i c = c
  flush_from (suc n) i c = flush_from n (i + 1) (flush_line c i)

  pub flush_all : PageCache → PageCache
  flush_all c = flush_from cache_lines 0 (init c)

  -- The dirty lines among the `n` from `i` on.
  pub count_dirty : ℕ → ℕ → PageCache → ℕ
  count_dirty zero i c = 0
  count_dirty (suc n) i c =
      (if (c.lines i).valid && (c.lines i).dirty then 1 else 0) + count_dirty n (i + 1) c

  -- `page_cache_get_stats`: the count is stored too.
  pub get_stats : PageCache → PageCacheStats × PageCache
  get_stats c =
      let s : PageCacheStats = record c.stats { dirty_lines = count_dirty cache_lines 0 c } in
      (s, record c { stats = s })

  pub reset_stats : PageCache → PageCache
  reset_stats c = record c {
    stats = record {
      read_hits = 0;
      read_misses = 0;
      write_hits = 0;
      write_misses = 0;
      evictions = 0;
      buffered_writes = 0;
      flush_writes = 0;
      dirty_lines = 0;
    };
  }
