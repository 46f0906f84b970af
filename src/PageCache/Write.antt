-- ===== src/PageCache/Write.antt =====
-- `page_cache_write_sector` (page_cache.c): the sectors it leaves.
use mathlib.Core.Option.{some}
use neuro_spark.Prelude.{ℕ, ◌<◌, ◌≡◌, refl, sym, ◌∙◌, ◌≢◌, inl, inr, arith, inc32}
use neuro_spark.PageCache.Device.{BlockDevice, IsReliable}
use neuro_spark.PageCache.{
  cache_lines, PageCache, find_line, pick_victim_line, write_found, claim_line,
}
use neuro_spark.PageCache.Coherence.{Holds, Misses, IsCoherent, contents, find_line-cases}
use neuro_spark.PageCache.Victim.{IsVictim, pick_after, AllAgree}
use neuro_spark.PageCache.Read.{empty_line}
use neuro_spark.PageCache.Fill.{
  IsFilled, filled-IsCoherent, contents-filled_self, contents-filled_ne,
}

module _ (dev : BlockDevice) where
  open dev use {Sector, Disk, read_sector}

  module _ (rel : IsReliable dev) where
    -- A write to a coherent cache.
    pub record Writes (c : PageCache dev) (lba : ℕ) (w : Sector) (c' : PageCache dev) : Type 0 where
      pub coherent : IsCoherent dev c'
      pub written : contents dev c' lba ≡ some w
      pub others : (l : ℕ) → lba ≢ l → contents dev c' l ≡ contents dev c l
      pub flag : c'.initialized ≡ c.initialized

    abbrev write_miss : PageCache dev → PageCache dev
    write_miss c = record c { stats = record c.stats { write_misses = inc32 c.stats.write_misses } }

    write_miss-Agrees : (c : PageCache dev) → AllAgree dev c (write_miss c)
    write_miss-Agrees c i = record {
      valid = refl;
      dirty = λ _. refl;
      lba = λ _. refl;
      words = λ _. refl;
    }

    write_hit-IsFilled :
        (c : PageCache dev) (lba i : ℕ) (w : Sector)
        → Holds dev c i lba
        → IsFilled dev c (write_found dev c lba w (some i)) i lba w
    unfolding write_found
    write_hit-IsFilled c lba i w h = record {
      in_range = h.0;
      hand = refl;
      disk = refl;
      held = (h.0, ground arith, ground arith);
      words = ground arith;
      others = λ j n. ground arith;
      kept = λ e. ground arith;
    }

    claim_line-IsFilled :
        (d : PageCache dev) (idx lba : ℕ) (w : Sector)
        → idx < cache_lines
        → IsFilled dev d (claim_line dev lba w (idx, d)) idx lba w
    unfolding claim_line
    claim_line-IsFilled d idx lba w h = record {
      in_range = h;
      hand = refl;
      disk = refl;
      held = (h, ground arith, ground arith);
      words = ground arith;
      others = λ j n. ground arith;
      kept = λ e. ground arith;
    }

    write_hit :
        (c : PageCache dev) (lba i : ℕ) (w : Sector)
        → IsCoherent dev c
        → Holds dev c i lba
        → Writes c lba w (write_found dev c lba w (some i))
    write_hit c lba i w v h =
        let f = write_hit-IsFilled c lba i w h in
        let c' = write_found dev c lba w (some i) in
        let only = λ (l : ℕ) (g : Holds dev c i l). sym g.2 ∙ h.2 in
        let own = λ (j : ℕ) (g : Holds dev c j lba). v.unique j i lba g h in
        record {
          coherent = filled-IsCoherent dev c c' i lba w f v only own;
          written = contents-filled_self dev c c' i lba w f v only own;
          others = λ l n. contents-filled_ne dev c c' i lba w f v only own l n;
          flag = unfold write_found in refl;
        }

    claim_line-Writes :
        (c : PageCache dev) (lba : ℕ) (w : Sector) (r : ℕ × PageCache dev)
        → IsVictim dev c r
        → Misses dev c lba
        → Writes c lba w (claim_line dev lba w r)
    claim_line-Writes c lba w (idx, d) v m =
        let f = claim_line-IsFilled d idx lba w v.in_range in
        let d' = claim_line dev lba w (idx, d) in
        let only = λ (l : ℕ) (g : Holds dev d idx l).
          absurd {A = l ≡ lba} (empty_line dev rel d idx l v.empty g) in
        let own = λ (j : ℕ) (g : Holds dev d j lba). absurd {A = j ≡ idx} (m j (v.fewer j lba g)) in
        record {
          coherent = filled-IsCoherent dev d d' idx lba w f v.coherent only own;
          written = contents-filled_self dev d d' idx lba w f v.coherent only own;
          others =
              λ l n. contents-filled_ne dev d d' idx lba w f v.coherent only own l n ∙ v.same l;
          flag = unfold claim_line in v.flag;
        }

    pub write_found-Writes :
        (c : PageCache dev) (lba : ℕ) (w : Sector)
        → IsCoherent dev c
        → Writes c lba w (write_found dev c lba w (find_line dev c lba))
    write_found-Writes c lba w v = elim (find_line-cases dev c lba) [
      | inl (i, e, h) ↦ rw e (write_hit c lba i w v h)
      | inr (e, m) ↦
          unfold write_found in
          rw e (
            claim_line-Writes c lba w (pick_victim_line dev (write_miss c))
              (pick_after dev rel c (write_miss c) (write_miss-Agrees c) refl refl refl v) m)
    ]
