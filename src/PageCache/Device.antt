-- ===== src/PageCache/Device.antt =====
-- What page_cache.c uses of the disk driver: `disk_read_sector_uncached` and
-- `disk_write_sector_uncached`, whose work is done by the drive.
use neuro_spark.Prelude.{ℕ, ◌≡◌, ◌≢◌, Bool, Option, some}

pub record BlockDevice : Type 1 where
  -- 256 words.
  pub Sector : Type 0
  pub Disk : Type 0
  -- `none` is any status but `DISK_IO_OK`.
  pub read_sector : Disk → ℕ → Option Sector
  -- Whether the drive took the write, which the driver's `void` function keeps from its caller, and
  -- the drive afterwards.
  pub write_sector : Disk → ℕ → Sector → Bool × Disk

-- A drive that takes every write, keeps it, and keeps the other sectors.
pub record IsReliable (dev : BlockDevice) : Type 0 where
  pub reads_back :
      (d : dev.Disk) (lba : ℕ) (w : dev.Sector)
      → dev.read_sector (dev.write_sector d lba w).1 lba ≡ some w
  pub keeps_others :
      (d : dev.Disk) (lba other : ℕ) (w : dev.Sector)
      → lba ≢ other
      → dev.read_sector (dev.write_sector d lba w).1 other ≡ dev.read_sector d other
