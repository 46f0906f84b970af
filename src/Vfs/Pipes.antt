-- ===== src/Vfs/Pipes.antt =====
-- kernel/vfs.c: pipes, rings of bytes that are reached through handles for reading and writing.
pub mod Fifo
pub mod Backend
pub mod History
use neuro_spark.Prelude.{
  ℕ, zero, suc, ◌+◌, ◌-◌, ◌*◌, ◌%◌, Bool, true, false, ◌&&◌, ◌||◌, not, Option, none, some, ltb,
  leb, ◌==◌, if◌then◌else◌, update, find_index,
}
use neuro_spark.Prelude.Int.{ℤ, pos, negsuc, pos_part}
use neuro_spark.Vfs.{
  vfs_ok, vfs_err_invalid_fd, vfs_err_io, vfs_err_perm, vfs_err_would_block, out_of_range,
}

abbrev pub pipe_max : ℕ
pipe_max = 64

abbrev pub handle_max : ℕ
handle_max = 128

abbrev pub pipe_buffer_size : ℕ
pipe_buffer_size = 1024

pub record VfsPipe : Type 0 where
  pub used : Bool
  pub bytes : ℕ → ℕ
  pub head : ℕ
  pub tail : ℕ
  pub count : ℕ
  pub read_refs : ℕ
  pub write_refs : ℕ

pub record VfsPipeHandle : Type 0 where
  pub used : Bool
  pub pipe_idx : ℤ
  pub writable : Bool

pub record Pipes : Type 0 where
  pub pipes : ℕ → VfsPipe
  pub handles : ℕ → VfsPipeHandle

abbrev pub set_pipe : ℕ → VfsPipe → Pipes → Pipes
set_pipe i p s = record s { pipes = update s.pipes i p }

unfoldable pub vfs_pipe_alloc_slot : Pipes → ℤ × Pipes
vfs_pipe_alloc_slot s = elim (find_index (λ i. not (s.pipes i).used) pipe_max 0) [
  | none ↦ (negsuc 0, s)
  | some i ↦ (
    pos i,
    set_pipe i
        (record (s.pipes i) {
          used = true;
          head = 0;
          tail = 0;
          count = 0;
          read_refs = 0;
          write_refs = 0;
        })
        s,
  )
]

unfoldable pub vfs_pipe_handle_alloc : ℕ → Bool → Pipes → ℤ × Pipes
vfs_pipe_handle_alloc k writable s = elim (find_index (λ i. not (s.handles i).used) handle_max 0) [
  | none ↦ (negsuc 0, s)
  | some i ↦
      let p = s.pipes k in
      (
        pos i,
        record {
          pipes = update s.pipes k (
              if writable
              then record p { write_refs = p.write_refs + 1 }
              else record p { read_refs = p.read_refs + 1 });
          handles =
              update s.handles i (record { used = true; pipe_idx = pos k; writable = writable });
        },
      )
]

-- The reading loop, with `left` bytes still asked for and `done` bytes in the buffer.
unfoldable pub take_bytes : ℕ → VfsPipe → (ℕ → ℕ) → ℕ → ℕ × (ℕ → ℕ) × VfsPipe
take_bytes zero p out done = (done, out, p)
take_bytes (suc left) p out done =
    let rest =
      take_bytes left (record p { head = (p.head + 1) % pipe_buffer_size; count = p.count - 1 })
        (update out done (p.bytes p.head)) (done + 1) in
    if ltb 0 p.count then rest else (done, out, p)

-- The writing loop, with `left` bytes still offered.
unfoldable pub put_bytes : ℕ → VfsPipe → (ℕ → ℕ) → ℕ → ℕ × VfsPipe
put_bytes zero p input done = (done, p)
put_bytes (suc left) p input done =
    let rest =
      put_bytes left
        (record p {
          bytes = update p.bytes p.tail (input done);
          tail = (p.tail + 1) % pipe_buffer_size;
          count = p.count + 1;
        })
        input (done + 1) in
    if ltb p.count pipe_buffer_size then rest else (done, p)

abbrev pub bad_handle : ℤ → Pipes → Bool
bad_handle h s = out_of_range h handle_max || not (s.handles (pos_part h)).used

-- `none` is the null buffer; the answer is the result, the buffer after the call and the pipes.
unfoldable pub pipe_read_backend : ℤ → Option (ℕ → ℕ) → ℕ → Pipes → ℤ × Option (ℕ → ℕ) × Pipes
pipe_read_backend handle none size s = (vfs_err_invalid_fd, none, s)
pipe_read_backend handle (some out) size s =
    let h = s.handles (pos_part handle) in
    let k = pos_part h.pipe_idx in
    let p = s.pipes k in
    let (done, out', p') = take_bytes size p out 0 in
    if bad_handle handle s
    then (vfs_err_invalid_fd, some out, s)
    else if h.writable
    then (vfs_err_perm, some out, s)
    else (
      if done == 0 && ltb 0 p'.write_refs then vfs_err_would_block else pos done,
      some out',
      set_pipe k p' s,
    )

unfoldable pub pipe_write_backend : ℤ → Option (ℕ → ℕ) → ℕ → Pipes → ℤ × Pipes
pipe_write_backend handle none size s = (vfs_err_invalid_fd, s)
pipe_write_backend handle (some input) size s =
    let h = s.handles (pos_part handle) in
    let k = pos_part h.pipe_idx in
    let p = s.pipes k in
    let (done, p') = put_bytes size p input 0 in
    if bad_handle handle s
    then (vfs_err_invalid_fd, s)
    else if not h.writable
    then (vfs_err_perm, s)
    else if leb p.read_refs 0
    then (vfs_err_io, s)
    else (if done == 0 then vfs_err_would_block else pos done, set_pipe k p' s)

-- A pipe with no handle left is free again, and empty.
abbrev pub retire : VfsPipe → VfsPipe
retire p =
    if p.read_refs == 0 && p.write_refs == 0
    then record p { used = false; head = 0; tail = 0; count = 0 }
    else p

unfoldable pub pipe_close_backend : ℤ → Pipes → ℤ × Pipes
pipe_close_backend handle s =
    let i = pos_part handle in
    let h = s.handles i in
    let k = pos_part h.pipe_idx in
    let p = s.pipes k in
    if bad_handle handle s then (vfs_err_invalid_fd, s) else (
      vfs_ok,
      record {
        pipes = update s.pipes k (
            retire (
              if h.writable
              then record p { write_refs = p.write_refs - 1 }
              else record p { read_refs = p.read_refs - 1 }));
        handles =
            update s.handles i (record { used = false; pipe_idx = negsuc 0; writable = false });
      },
    )
