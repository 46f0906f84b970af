-- ===== src/PageCache/Client.antt =====
-- page_cache.c as its clients see it: reads, writes and flushes against a map of sectors.
use native.Mathlib.Decide.{ℕ_discrete}
use mathlib.Core.Path.{fun_ext}
use mathlib.Core.Option.{some, none, Option}
use neuro_spark.Prelude.{
  ℕ, zero, suc, ◌+◌, ◌≤◌, ◌<◌, ◌≡◌, refl, sym, ◌∙◌, ◌⊎◌, inl, inr, true, false, List, [], ◌∷◌,
  arith, ◌==◌, if◌then◌else◌, update, ==_iff, ==_ne,
}
use neuro_spark.PageCache.Device.{BlockDevice, IsReliable}
use neuro_spark.PageCache.{
  cache_lines, PageCache, IoStatus, io_ok, init, read, write, clear_lines, flush_line, flush_from,
  flush_all,
}
use neuro_spark.PageCache.Coherence.{
  Holds, IsCoherent, contents, contents-cases, flush_line-IsCoherent, contents-flush_line,
  initialized-flush_line,
}
use neuro_spark.PageCache.Read.{reply, read_found-Reads}
use neuro_spark.PageCache.Write.{write_found-Writes}

module _ (dev : BlockDevice) where
  open dev use {Sector, Disk, read_sector}

  -- Every function of the file but the statistics starts by `page_cache_init`.
  pub record IsValid (c : PageCache dev) : Type 0 where
    pub coherent : IsCoherent dev (init dev c)

  abbrev pub seen : PageCache dev → ℕ → Option Sector
  seen c l = contents dev (init dev c) l

  fresh-empty :
      (c : PageCache dev) (i l : ℕ) → c.initialized ≡ false → Holds dev (init dev c) i l → ⊥
  unfolding init clear_lines
  fresh-empty c i l e h = ground arith

  -- The static variables at boot: no line is trusted before `page_cache_init`.
  pub fresh-IsValid : (c : PageCache dev) → c.initialized ≡ false → IsValid c
  unfolding init clear_lines
  fresh-IsValid c e =
      let gone = λ (i l : ℕ) (h : Holds dev (init dev c) i l). fresh-empty c i l e h in
      record {
        coherent = record {
          hand_in = ground arith;
          unique = λ i j l g h. absurd (gone i l g);
          clean = λ i l h _. absurd (gone i l h);
        };
      }

  initialized-init : (c : PageCache dev) → (init dev c).initialized ≡ true
  unfolding init
  initialized-init c = ground arith

  init-initialized : (c : PageCache dev) → c.initialized ≡ true → init dev c ≡ c
  unfolding init
  init-initialized c e = rw e

  module _ (rel : IsReliable dev) where
    -- On a valid cache, `page_cache_read_sector` answers the sector that the cache shows, or fails
    -- if it shows none; it keeps the cache valid and every sector as it was seen.
    read_lem :
        (c : PageCache dev) (lba : ℕ)
        → IsValid c
        → let (a, c') = read dev c lba in
          (a ≡ reply dev (seen c lba)) × IsValid c' × ((l : ℕ) → seen c' l ≡ seen c l)
    unfolding read
    read_lem c lba v =
        let r = read_found-Reads dev rel (init dev c) lba v.coherent in
        let e = init-initialized (read dev c lba).1 (r.flag ∙ initialized-init c) in
        (r.answer, record { coherent = rw e r.coherent }, λ l. rw e (r.same l))

    -- On a valid cache, `page_cache_write_sector` answers `DISK_IO_OK`, keeps the cache valid,
    -- shows the words written at that sector and every other sector as before.
    write_lem :
        (c : PageCache dev) (lba : ℕ) (w : Sector)
        → IsValid c
        → let (s, c') = write dev c lba w in
          (s ≡ io_ok) × IsValid c' × ((l : ℕ) → seen c' l ≡ (if lba == l then some w else seen c l))
    unfolding write
    write_lem c lba w v =
        let r = write_found-Writes dev rel (init dev c) lba w v.coherent in
        let c' = (write dev c lba w).1 in
        let e = init-initialized c' (r.flag ∙ initialized-init c) in
        (
          refl,
          record { coherent = rw e r.coherent },
          λ l. rw e (elim (ℕ_discrete lba l) [
            | yes q ↦ rw ((==_iff lba l).1 q, ← q) r.written
            | no n ↦ rw (==_ne lba l n) (r.others l n)
          ]),
        )

    flush_from-IsCoherent :
        (n i : ℕ) (c : PageCache dev) → IsCoherent dev c → IsCoherent dev (flush_from dev n i c)
    unfolding flush_from
    flush_from-IsCoherent zero i c v = v
    flush_from-IsCoherent (suc n) i c v =
        flush_from-IsCoherent n (i + 1) (flush_line dev c i) (flush_line-IsCoherent dev rel c i v)

    contents-flush_from :
        (n i : ℕ) (c : PageCache dev) (l : ℕ)
        → IsCoherent dev c
        → contents dev (flush_from dev n i c) l ≡ contents dev c l
    unfolding flush_from
    contents-flush_from zero i c l v = refl
    contents-flush_from (suc n) i c l v =
        contents-flush_from n (i + 1) (flush_line dev c i) l (flush_line-IsCoherent dev rel c i v)
        ∙ contents-flush_line dev rel c i l v

    initialized-flush_from :
        (n i : ℕ) (c : PageCache dev) → (flush_from dev n i c).initialized ≡ c.initialized
    unfolding flush_from
    initialized-flush_from zero i c = refl
    initialized-flush_from (suc n) i c =
        initialized-flush_from n (i + 1) (flush_line dev c i) ∙ initialized-flush_line dev rel c i

    -- A line is clean once it is flushed, and stays so.
    IsClean : PageCache dev → ℕ → Type 0
    IsClean c i = ((c.lines i).valid ≡ false) ⊎ ((c.lines i).dirty ≡ false)

    IsClean-flush_line_self :
        (c : PageCache dev) (i : ℕ) → i < cache_lines → IsClean (flush_line dev c i) i
    unfolding flush_line IsClean
    IsClean-flush_line_self c i h = ground arith

    IsClean-flush_line :
        (c : PageCache dev) (i j : ℕ) → IsClean c j → IsClean (flush_line dev c i) j
    unfolding flush_line IsClean
    IsClean-flush_line c i j h = ground arith

    IsClean-flush_from :
        (n i : ℕ) (c : PageCache dev) (j : ℕ) → IsClean c j → IsClean (flush_from dev n i c) j
    unfolding flush_from
    IsClean-flush_from zero i c j h = h
    IsClean-flush_from (suc n) i c j h =
        IsClean-flush_from n (i + 1) (flush_line dev c i) j (IsClean-flush_line c i j h)

    flush_from-IsClean :
        (n i : ℕ) (c : PageCache dev) (j : ℕ)
        → i + n ≤ cache_lines
        → i ≤ j
        → j < i + n
        → IsClean (flush_from dev n i c) j
    unfolding flush_from
    flush_from-IsClean zero i c j h a b = absurd (omega arith)
    flush_from-IsClean (suc n) i c j h a b = elim (ℕ_discrete i j) [
      | yes e ↦
          IsClean-flush_from n (i + 1) (flush_line dev c i) j
            (rw (← e) (IsClean-flush_line_self c i (omega arith)))
      | no n' ↦
          flush_from-IsClean n (i + 1) (flush_line dev c i) j (omega arith) (omega arith)
            (omega arith)
    ]

    clean-contents :
        (c : PageCache dev) (l : ℕ)
        → IsCoherent dev c
        → ((i : ℕ) → i < cache_lines → IsClean c i)
        → contents dev c l ≡ read_sector c.disk l
    unfolding IsClean
    clean-contents c l v k = elim (contents-cases dev c l) [
      | inr (m, e) ↦ e
      | inl (i, h, e) ↦ e ∙ sym (v.clean i l h (elim (k i h.0) [ inl a ↦ cc | inr b ↦ b ]))
    ]

    -- On a valid cache, `page_cache_flush_all` keeps the cache valid and every sector as it was
    -- seen, and brings the drive up to date: afterwards it holds of each sector what the cache
    -- shows.
    flush_all_lem :
        (c : PageCache dev)
        → IsValid c
        → let c' = flush_all dev c in
          IsValid c'
          × ((l : ℕ) → seen c' l ≡ seen c l)
          × ((l : ℕ) → read_sector c'.disk l ≡ seen c l)
    unfolding flush_all
    flush_all_lem c v =
        let c' = flush_all dev c in
        let w = flush_from-IsCoherent 32 0 (init dev c) v.coherent in
        let e =
          init-initialized c' (initialized-flush_from 32 0 (init dev c) ∙ initialized-init c) in
        let s = λ (l : ℕ). contents-flush_from 32 0 (init dev c) l v.coherent in
        (
          record { coherent = rw e w },
          λ l. rw e (s l),
          λ l.
              sym (
                clean-contents c' l w (λ i h.
                  flush_from-IsClean 32 0 (init dev c) i (omega arith) (omega arith) (omega arith)))
              ∙ s l,
        )

  -- What clients call, and what each call answers.
  pub data Op : Type 0 where
    reads : ℕ → Op
    writes : ℕ → Sector → Op
    flushes : Op

  unfoldable pub run : PageCache dev → List Op → List (IoStatus × Option Sector)
  run c [] = []
  run c (reads l ∷ ops) = let (a, c') = read dev c l in a ∷ run c' ops
  run c (writes l w ∷ ops) = let (s, c') = write dev c l w in (s, none) ∷ run c' ops
  run c (flushes ∷ ops) = (io_ok, none) ∷ run (flush_all dev c) ops

  -- The promise: a map of sectors with no cache.
  pub run_map : (ℕ → Option Sector) → List Op → List (IoStatus × Option Sector)
  run_map m [] = []
  run_map m (reads l ∷ ops) = reply dev (m l) ∷ run_map m ops
  run_map m (writes l w ∷ ops) = (io_ok, none) ∷ run_map (update m l (some w)) ops
  run_map m (flushes ∷ ops) = (io_ok, none) ∷ run_map m ops

  -- No sequence of reads, writes and flushes tells a valid cache, over a drive that takes every
  -- write, from a plain map of sectors that starts as what the cache shows.
  pub run_refines :
      (rel : IsReliable dev) (ops : List Op) (c : PageCache dev)
      → IsValid c
      → run c ops ≡ run_map (seen c) ops
  unfolding run run_map
  run_refines rel [] c v = refl
  run_refines rel (reads l ∷ ops) c v =
      let r = read_lem rel c l v in
      let e : seen (read dev c l).1 ≡ seen c = fun_ext r.2 in
      rw (run_refines rel ops (read dev c l).1 r.1, e, r.0)
  run_refines rel (writes l w ∷ ops) c v =
      let r = write_lem rel c l w v in
      let e : seen (write dev c l w).1 ≡ update (seen c) l (some w) = fun_ext r.2 in
      rw (run_refines rel ops (write dev c l w).1 r.1, e, r.0)
  run_refines rel (flushes ∷ ops) c v =
      let r = flush_all_lem rel c v in
      let e : seen (flush_all dev c) ≡ seen c = fun_ext r.1 in
      rw (run_refines rel ops (flush_all dev c) r.0, e)
