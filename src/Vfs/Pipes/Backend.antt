-- ===== src/Vfs/Pipes/Backend.antt =====
-- kernel/vfs.c: what reading from and writing to a pipe answer, and any sequence of both.
use neuro_spark.Prelude.{
  ℕ, ◌-◌, ◌<◌, ◌≡◌, ◌≢◌, refl, ◌∙◌, Bool, true, false, ◌&&◌, ◌++◌, some, Option, arith, ltb, leb,
  ◌==◌, if◌then◌else◌, update, update_self,
}
use neuro_spark.Prelude.Int.{ℤ, pos, pos_part}
use neuro_spark.Vfs.{vfs_err_would_block, vfs_err_io}
use neuro_spark.Vfs.Pipes.{
  VfsPipe, Pipes, take_bytes, put_bytes, pipe_buffer_size, pipe_read_backend, pipe_write_backend,
  bad_handle,
}
use neuro_spark.Vfs.Pipes.Fifo.{IsRing, contents, slice, smaller, take_bytes_lem, put_bytes_lem}

-- The handle `h` is one end of the pipe `k`.
pub record IsEnd (h : ℤ) (writable : Bool) (k : ℕ) (s : Pipes) : Type 0 where
  pub good : bad_handle h s ≡ false
  pub kind : (s.handles (pos_part h)).writable ≡ writable
  pub pipe_at : (s.handles (pos_part h)).pipe_idx ≡ pos k

-- Nothing but the bytes of the pipe `k` differs.
pub record Untouched (k : ℕ) (s s' : Pipes) : Type 0 where
  pub handles_at : s'.handles ≡ s.handles
  pub others : (j : ℕ) → k ≢ j → s'.pipes j ≡ s.pipes j
  pub readers : (s'.pipes k).read_refs ≡ (s.pipes k).read_refs
  pub writers : (s'.pipes k).write_refs ≡ (s.pipes k).write_refs

pub pipe_read_eq :
    (h : ℤ) (k size : ℕ) (out : ℕ → ℕ) (s : Pipes)
    → IsEnd h false k s
    → let (done, out', p') = take_bytes size (s.pipes k) out 0 in
      pipe_read_backend h (some out) size s ≡ (
        if done == 0 && ltb 0 p'.write_refs then vfs_err_would_block else pos done,
        some out',
        record s { pipes = update s.pipes k p' },
      )
unfolding pipe_read_backend
pipe_read_eq h k size out s e = rw (e.pipe_at, e.good, e.kind) refl

pub pipe_write_eq :
    (h : ℤ) (k size : ℕ) (input : ℕ → ℕ) (s : Pipes)
    → IsEnd h true k s
    → let (done, p') = put_bytes size (s.pipes k) input 0 in
      pipe_write_backend h (some input) size s ≡ (
        if leb (s.pipes k).read_refs 0 then (vfs_err_io, s) else (
          if done == 0 then vfs_err_would_block else pos done,
          record s { pipes = update s.pipes k p' },
        ))
unfolding pipe_write_backend
pipe_write_eq h k size input s e = rw (e.pipe_at, e.good, e.kind) refl

update-Untouched :
    (k : ℕ) (s : Pipes) (p : VfsPipe)
    → p.read_refs ≡ (s.pipes k).read_refs
    → p.write_refs ≡ (s.pipes k).write_refs
    → Untouched k s (record s { pipes = update s.pipes k p })
update-Untouched k s p a b = record {
  handles_at = refl;
  others = λ j ne. ground arith;
  readers = ground arith;
  writers = ground arith;
}

-- What a read of `size` bytes answers: the result, the buffer and the pipes.
pub record ReadsFront (k size : ℕ) (s : Pipes) (r : ℤ × Option (ℕ → ℕ) × Pipes) : Type 0 where
  pub buffer : ℕ → ℕ
  pub buffer_at : r.1 ≡ some buffer
  pub result : r.0 ≡ (
      if smaller size (s.pipes k).count == 0 && ltb 0 (s.pipes k).write_refs
      then vfs_err_would_block
      else pos (smaller size (s.pipes k).count))
  pub queue :
      slice buffer 0 (smaller size (s.pipes k).count) ++ contents (r.2.pipes k)
      ≡ contents (s.pipes k)
  pub ring : IsRing (r.2.pipes k)
  pub rest : Untouched k s r.2

-- Reading through a reading handle of a pipe that is a ring takes the front of its queue, `size`
-- bytes or all that there are, into the buffer, and answers their number; but if there are none
-- and somebody can write, it answers that it would block. Other pipes and the handles stay.
pub pipe_read_front :
    (h : ℤ) (k size : ℕ) (out : ℕ → ℕ) (s : Pipes)
    → IsEnd h false k s
    → IsRing (s.pipes k)
    → ReadsFront k size s (pipe_read_backend h (some out) size s)
pipe_read_front h k size out s e v =
    let t = take_bytes_lem size (s.pipes k) out 0 v in
    let r = take_bytes size (s.pipes k) out 0 in
    let here : update s.pipes k r.2 k ≡ r.2 = update_self s.pipes k r.2 in
    rw (pipe_read_eq h k size out s e) (record {
      buffer = r.1;
      buffer_at = refl;
      result = ground (arith, t.done_at, t.ends);
      queue = rw here t.queue;
      ring = rw here t.ring;
      rest = update-Untouched k s r.2 (t.ends.0) (t.ends.1);
    })

-- What a write of `size` bytes answers.
pub record WritesBack (k size : ℕ) (input : ℕ → ℕ) (s : Pipes) (r : ℤ × Pipes) : Type 0 where
  pub result : r.0 ≡ (
      if smaller size (pipe_buffer_size - (s.pipes k).count) == 0
      then vfs_err_would_block
      else pos (smaller size (pipe_buffer_size - (s.pipes k).count)))
  pub queue :
      contents (r.1.pipes k)
      ≡ contents (s.pipes k) ++ slice input 0 (smaller size (pipe_buffer_size - (s.pipes k).count))
  pub ring : IsRing (r.1.pipes k)
  pub rest : Untouched k s r.1

-- Writing through a writing handle of a pipe that is a ring and that somebody can read puts bytes
-- behind its queue, `size` of them or as many as are free of 1024, and answers their number, or
-- that it would block if that is 0. Other pipes and the handles stay.
pub pipe_write_back :
    (h : ℤ) (k size : ℕ) (input : ℕ → ℕ) (s : Pipes)
    → IsEnd h true k s
    → IsRing (s.pipes k)
    → 0 < (s.pipes k).read_refs
    → WritesBack k size input s (pipe_write_backend h (some input) size s)
pipe_write_back h k size input s e v readers =
    let t = put_bytes_lem size (s.pipes k) input 0 v in
    let r = put_bytes size (s.pipes k) input 0 in
    let here : update s.pipes k r.1 k ≡ r.1 = update_self s.pipes k r.1 in
    let open_ : leb (s.pipes k).read_refs 0 ≡ false = ground arith in
    rw (pipe_write_eq h k size input s e, open_)
      (record {
        result = ground (arith, t.done_at);
        queue = rw here t.queue;
        ring = rw here t.ring;
        rest = update-Untouched k s r.1 (t.ends.0) (t.ends.1);
      })

-- Nobody can read: the write fails and nothing changes.
pub pipe_write_broken :
    (h : ℤ) (k size : ℕ) (input : ℕ → ℕ) (s : Pipes)
    → IsEnd h true k s
    → (s.pipes k).read_refs ≡ 0
    → pipe_write_backend h (some input) size s ≡ (vfs_err_io, s)
pipe_write_broken h k size input s e z =
    let shut : leb (s.pipes k).read_refs 0 ≡ true = ground arith in
    pipe_write_eq h k size input s e ∙ rw shut refl
