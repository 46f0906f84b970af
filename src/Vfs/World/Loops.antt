-- ===== src/Vfs/World/Loops.antt =====
-- kernel/vfs.c: the loops of vfs_write_file and vfs_read_file on a file of the ramdisk.
use neuro_spark.Prelude.{
  ℕ, zero, suc, ◌+◌, ◌-◌, ◌≤◌, ◌<◌, ◌≡◌, refl, sym, ap, ◌∙◌, subst, arith, ◌==◌, true, false, ltb,
  leb, Bool-cases, inl, inr, some,
}
use neuro_spark.Prelude.Int.{ℤ, pos}
use neuro_spark.Vfs.{vfs_o_rdonly, vfs_o_wronly}
use neuro_spark.Vfs.Descriptors.{VfsBackendOps, State, current_task_id}
use neuro_spark.Vfs.Mounts.{read_loop, write_loop, shifted, put_back}
use neuro_spark.Vfs.Ramdisk.{Ramdisk, ramdisk_read, ramdisk_write, lacks, smaller, file_capacity}
use neuro_spark.Vfs.Ramdisk.Content.{At, ramdisk_read_lem, ramdisk_write_lem}
use neuro_spark.Vfs.World.{World, backend_at}
use neuro_spark.Vfs.World.Files.{Open, with_ramdisk, vfs_read_at, vfs_write_at}

-- Another ramdisk leaves the descriptors.
pub Open-with :
    {E : Type 0} (i g h : ℕ) (r : Ramdisk) (s : State (World E))
    → Open i g h s
    → Open i g h (with_ramdisk s r)
unfolding current_task_id
Open-with i g h r s o = record {
  fd_in = o.fd_in;
  entry_in = o.entry_in;
  fd_at = o.fd_at;
  used_at = o.used_at;
  ops_at = o.ops_at;
  handle_at = o.handle_at;
  count_at = o.count_at;
}

module _ {E : Type 0} (others : ℕ → VfsBackendOps (World E)) where
  pub write_loop_done :
      (rounds : ℕ) (fd : ℤ) (buf : ℕ → ℕ) (total size : ℕ) (s : State (World E))
      → size ≤ total
      → write_loop (backend_at others) rounds fd buf total size s ≡ (pos total, s)
  unfolding write_loop
  write_loop_done zero fd buf total size s l = refl
  write_loop_done (suc n) fd buf total size s l =
      let t : leb size total ≡ true = ground arith in rw t refl

  -- One call of the backend takes all bytes, if they fit.
  pub write_loop-At :
      (i g h e flags size : ℕ) (buf : ℕ → ℕ) (s : State (World E))
      → Open i g h s
      → At s.world.ramdisk h e 0 flags
      → lacks vfs_o_wronly flags ≡ false
      → size ≤ file_capacity
      → 0 < size
      → write_loop (backend_at others) size (pos i) buf 0 size s ≡ (
        pos size,
        with_ramdisk s (ramdisk_write (pos h) (some (shifted buf 0)) size s.world.ramdisk).1,
      )
  unfolding write_loop
  write_loop-At i g h e flags zero buf s o a p l z = absurd (omega arith)
  write_loop-At i g h e flags (suc n) buf s o a p l z =
      let eq = vfs_write_at others i g h (shifted buf 0) (suc n) s o in
      let t =
        ramdisk_write_lem h e 0 flags (suc n) (shifted buf 0) s.world.ramdisk a p (omega arith) in
      let all : smaller (suc n) (file_capacity - 0) ≡ suc n = ground arith in
      let count : (ramdisk_write (pos h) (some (shifted buf 0)) (suc n) s.world.ramdisk).0
          ≡ pos (suc n) =
        t.0 ∙ ap pos all in
      let start : leb (suc n) 0 ≡ false = ground arith in
      let some_left : (suc n == 0) ≡ false = ground arith in
      let asked : suc n - 0 ≡ suc n = omega arith in
      let sum : 0 + suc n ≡ suc n = omega arith in
      rw (start, asked, eq, count)
        (rw (some_left, sum) (write_loop_done n (pos i) buf (suc n) (suc n) _ (omega arith)))

  -- At the end of the file the loop answers what it has.
  read_loop_done :
      (rounds i g h e flags total max_size : ℕ) (buf : ℕ → ℕ) (s : State (World E))
      → Open i g h s
      → At s.world.ramdisk h e ((s.world.ramdisk).files e).size flags
      → lacks vfs_o_rdonly flags ≡ false
      → let r = read_loop (backend_at others) rounds (pos i) buf total max_size s in
        (r.0 ≡ pos total) × ((k : ℕ) → k < total → r.1 k ≡ buf k)
  unfolding read_loop
  read_loop_done zero i g h e flags total max_size buf s o a p = (refl, λ k l. refl)
  read_loop_done (suc n) i g h e flags total max_size buf s o a p =
      elim (Bool-cases (leb max_size total)) [
        | inl t ↦ rw t (refl, λ k l. refl)
        | inr t ↦
            let size = (s.world.ramdisk.files e).size in
            let asked = max_size - total in
            let eq = vfs_read_at others i g h (shifted buf total) asked s o in
            let r = ramdisk_read_lem h e size flags asked (shifted buf total) s.world.ramdisk a p in
            let end_ : smaller asked (size - size) ≡ 0 = ground arith in
            let count : (ramdisk_read (pos h) (some (shifted buf total)) asked s.world.ramdisk).0
                ≡ pos 0 =
              r.0 ∙ ap pos end_ in
            rw (t, eq, count) (refl, λ k l. rw r.1.buffer_at (ground arith))
      ]

  -- The loop reads the whole file into a buffer that is large enough.
  pub read_loop-At :
      (i g h e flags size max_size : ℕ) (buf : ℕ → ℕ) (s : State (World E))
      → Open i g h s
      → At s.world.ramdisk h e 0 flags
      → (s.world.ramdisk.files e).size ≡ size
      → lacks vfs_o_rdonly flags ≡ false
      → size ≤ max_size
      → let r = read_loop (backend_at others) max_size (pos i) buf 0 max_size s in
        (r.0 ≡ pos size) × ((k : ℕ) → k < size → r.1 k ≡ (s.world.ramdisk.files e).bytes k)
  unfolding read_loop
  read_loop-At i g h e flags zero max_size buf s o a q p l =
      let d =
        read_loop_done max_size i g h e flags 0 max_size buf s o
          (subst (λ z. At s.world.ramdisk h e z flags) (sym q) a) p in
      (d.0, λ k m. absurd (omega arith))
  read_loop-At i g h e flags (suc m) zero buf s o a q p l = absurd (omega arith)
  read_loop-At i g h e flags (suc m) (suc n) buf s o a q p l =
      let asked : suc n - 0 ≡ suc n = omega arith in
      let eq = vfs_read_at others i g h (shifted buf 0) (suc n) s o in
      let t = ramdisk_read_lem h e 0 flags (suc n) (shifted buf 0) s.world.ramdisk a p in
      let all : smaller (suc n) ((s.world.ramdisk.files e).size - 0) ≡ suc m =
        rw q (ground arith) in
      let count : (ramdisk_read (pos h) (some (shifted buf 0)) (suc n) s.world.ramdisk).0
          ≡ pos (suc m) =
        t.0 ∙ ap pos all in
      let start : leb (suc n) 0 ≡ false = ground arith in
      let some_left : (suc m == 0) ≡ false = ground arith in
      let disk = (ramdisk_read (pos h) (some (shifted buf 0)) (suc n) s.world.ramdisk).2 in
      let end_ : 0 + smaller (suc n) ((s.world.ramdisk.files e).size - 0) ≡ (disk.files e).size =
        rw t.1.files_at (omega (arith, all, q)) in
      let there : At disk h e (disk.files e).size flags =
        subst (λ z. At disk h e z flags) end_ t.1.at_end in
      let out = (ramdisk_read (pos h) (some (shifted buf 0)) (suc n) s.world.ramdisk).1 in
      let d =
        read_loop_done n i g h e flags (0 + suc m) (suc n) (put_back buf 0 out)
          (with_ramdisk s disk) (Open-with i g h disk s o) there p in
      rw (start, asked, eq, count)
        (rw some_left (
          d.0 ∙ ap pos (omega arith),
          λ k z.
              let k0 : k - 0 ≡ k = omega arith in
              let k1 : 0 + k ≡ k = omega arith in
              let below : ltb k (smaller (suc n) ((s.world.ramdisk.files e).size - 0)) ≡ true =
                rw all (ground arith) in
              let byte : t.1.buffer k ≡ (s.world.ramdisk.files e).bytes k =
                t.1.bytes_at k ∙ (rw (below, k1) refl) in
              let above : ltb k 0 ≡ false = ground arith in
              d.1 k (omega arith) ∙ (rw (t.1.buffer_at, k0, above) byte),
        ))
