-- ===== src/Pmm.antt =====
-- kernel/pmm.c: the page bitmap. `kernel_end` is the address of the linker's `_kernel_end`; a
-- bitmap is a function of all indices, of which the first 1024 are the kernel's array. The map
-- that is printed is not modelled.
pub mod Bits
pub mod Pages
pub mod Alloc
pub mod Stats
pub mod Slab
mod Tests
use Prim.Native.Nat.{bit_and, bit_or}
use neuro_spark.Prelude.{
  ℕ, zero, suc, ◌+◌, ◌-◌, ◌*◌, ◌/◌, ◌%◌, ◌^◌, Bool, true, false, ◌||◌, not, Option, none, some, ltb,
  ◌==◌, if◌then◌else◌, update, find_index, sub32, inc32,
}

abbrev pub page_size : ℕ
page_size = 4096

-- `BITMAP_SIZE`, MEMORY_MAX / PAGE_SIZE / 8.
abbrev pub bitmap_size : ℕ
bitmap_size = 0x200_0000 / 4096 / 8

-- `BITMAP_SIZE * 8`.
abbrev pub page_count : ℕ
page_count = bitmap_size * 8

-- The end of the first MB, which is never freed.
abbrev pub reserved : ℕ
reserved = 0x10_0000

pub record Pmm : Type 0 where
  pub bitmap : ℕ → ℕ
  pub alloc_calls : ℕ
  pub free_calls : ℕ

abbrev pub set_bit : (ℕ → ℕ) → ℕ → ℕ → ℕ
set_bit bitmap page = update bitmap (page / 8) (bit_or (bitmap (page / 8)) (2 ^ (page % 8)))

-- The mask is `~(1 << (page % 8))`, of which a byte keeps the low 8 bits.
abbrev pub clear_bit : (ℕ → ℕ) → ℕ → ℕ → ℕ
clear_bit bitmap page =
    update bitmap (page / 8) (bit_and (bitmap (page / 8)) (255 - 2 ^ (page % 8)))

pub pmm_set_page : ℕ → Pmm → Pmm
pmm_set_page page_addr s = record s { bitmap = set_bit s.bitmap (page_addr / page_size) }

pub pmm_free_page : ℕ → Pmm → Pmm
pmm_free_page page_addr s = if ltb page_addr reserved then s else record s {
  bitmap = clear_bit s.bitmap (page_addr / page_size);
  free_calls = inc32 s.free_calls;
}

pub pmm_is_page_used : ℕ → Pmm → Bool
pmm_is_page_used page_addr s =
    let page = page_addr / page_size in not (bit_and (s.bitmap (page / 8)) (2 ^ (page % 8)) == 0)

-- The answer is a pointer, and the null pointer is the address 0, which is also that of page 0.
pub take_page : Pmm → Option ℕ → ℕ × Pmm
unfolding pmm_set_page
take_page s none = (0, s)
take_page s (some i) = (i * page_size, pmm_set_page (i * page_size) s)

pub pmm_alloc_page : Pmm → ℕ × Pmm
unfolding take_page
pmm_alloc_page s0 =
    let s = record s0 { alloc_calls = inc32 s0.alloc_calls } in
    take_page s (find_index (λ i. not (pmm_is_page_used (i * page_size) s)) page_count 0)

-- The second loop of `init_pmm`, `n` pages from page `i` on.
pub reserve : ℕ → ℕ → Pmm → Pmm
unfolding pmm_set_page
reserve zero i s = s
reserve (suc n) i s = reserve n (i + 1) (pmm_set_page (i * page_size) s)

-- The loop runs while `addr < kernel_top`, so for ⌈kernel_end / 4096⌉ pages.
pub init_pmm : ℕ → Pmm → Pmm
unfolding reserve
init_pmm kernel_end s =
    reserve ((kernel_end + (page_size - 1)) / page_size) 0
      (record s { bitmap = λ i. if ltb i bitmap_size then 0 else s.bitmap i })

abbrev pub first_user_page : ℕ
first_user_page = reserved / page_size

-- The loop of `pmm_get_free_pages`.
pub count_free : ℕ → ℕ → ℕ → Pmm → ℕ
count_free zero i free s = free
count_free (suc n) i free s =
    count_free n (i + 1) (if pmm_is_page_used (i * page_size) s then free else free + 1) s

pub pmm_get_free_pages : Pmm → ℕ
pmm_get_free_pages s = count_free (page_count - first_user_page) first_user_page 0 s

pub record Runs : Type 0 where
  pub used_pages : ℕ
  pub largest_run : ℕ
  pub cur_run : ℕ
  pub free_runs : ℕ

abbrev pub free_step : Runs → Runs
free_step r =
    let cur = r.cur_run + 1 in
    record r {
      cur_run = cur;
      free_runs = if cur == 1 then r.free_runs + 1 else r.free_runs;
      largest_run = if ltb r.largest_run cur then cur else r.largest_run;
    }

abbrev pub used_step : Runs → Runs
used_step r = record r { used_pages = r.used_pages + 1; cur_run = 0 }

-- The loop of `pmm_get_stats`.
pub scan_runs : ℕ → ℕ → Runs → Pmm → Runs
scan_runs zero i r s = r
scan_runs (suc n) i r s =
    scan_runs n (i + 1) (if pmm_is_page_used (i * page_size) s then used_step r else free_step r) s

pub record PmmStats : Type 0 where
  pub total_pages : ℕ
  pub used_pages : ℕ
  pub free_pages : ℕ
  pub largest_free_run : ℕ
  pub free_runs : ℕ
  pub fragmentation_permille : ℕ
  pub alloc_calls : ℕ
  pub free_calls : ℕ

-- What is stored once the pages are scanned.
pub stats_of : Runs → Pmm → PmmStats
stats_of r s =
    let total = page_count - first_user_page in
    let free = sub32 total r.used_pages in
    record {
      total_pages = total;
      used_pages = r.used_pages;
      free_pages = free;
      largest_free_run = r.largest_run;
      free_runs = r.free_runs;
      fragmentation_permille =
          if free == 0 || r.largest_run == 0 then 0 else sub32 1000 (r.largest_run * 1000 / free);
      alloc_calls = s.alloc_calls;
      free_calls = s.free_calls;
    }

abbrev pub no_runs : Runs
no_runs = record { used_pages = 0; largest_run = 0; cur_run = 0; free_runs = 0 }

pub pmm_get_stats : Pmm → PmmStats
pmm_get_stats s = stats_of (scan_runs (page_count - first_user_page) first_user_page no_runs s) s
