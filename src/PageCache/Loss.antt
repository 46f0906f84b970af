-- ===== src/PageCache/Loss.antt =====
-- What page_cache.c does when the drive refuses a write: `flush_line` drops the status.
use native.Mathlib.Decide.{ℕ_discrete}
use neuro_spark.Prelude.{ℕ, ◌<◌, ◌≡◌, ap, ◌∙◌, arith}
use neuro_spark.PageCache.Device.{BlockDevice}
use neuro_spark.PageCache.{PageCache, cache_lines, flush_line, evict}
use neuro_spark.PageCache.Coherence.{Holds, IsCoherent, contents, contents-miss}

module _ (dev : BlockDevice) where
  open dev use {read_sector, write_sector}

  evicted-Holds :
      (c : PageCache dev) (idx i l : ℕ)
      → idx < cache_lines
      → Holds dev (evict dev c idx).1 i l
      → (idx ≡ i → ⊥) × Holds dev c i l
  unfolding evict flush_line
  evicted-Holds c idx i l r h = elim (ℕ_discrete idx i) [
    | yes e ↦ ground arith
    | no n ↦ (n, (ground arith, ground arith, ground arith))
  ]

  disk-evict :
      (c : PageCache dev) (idx : ℕ)
      → (write_sector c.disk (c.lines idx).lba (c.lines idx).words).1 ≡ c.disk
      → (evict dev c idx).1.disk ≡ c.disk
  unfolding evict flush_line
  disk-evict c idx e = ground arith

  -- If the drive refuses the write of a line that is evicted (its contents stay as they were),
  -- the words of that line are gone: the cache then shows the drive's old sector.
  pub evict_loses :
      (c : PageCache dev) (idx l : ℕ)
      → IsCoherent dev c
      → Holds dev c idx l
      → (write_sector c.disk (c.lines idx).lba (c.lines idx).words).1 ≡ c.disk
      → contents dev (evict dev c idx).1 l ≡ read_sector c.disk l
  evict_loses c idx l v h e =
      contents-miss dev (evict dev c idx).1 l
        (λ i g. let r = evicted-Holds c idx i l h.0 g in r.0 (v.unique idx i l h r.1))
      ∙ ap (λ d. read_sector d l) (disk-evict c idx e)
