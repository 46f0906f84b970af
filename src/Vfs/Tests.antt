-- ===== src/Vfs/Tests.antt =====
-- Runs of the models of kernel/vfs.c, and its theorems at concrete inputs.
use neuro_spark.Prelude.{
  length, ℕ, ◌+◌, ◌*◌, ◌≤◌, ◌<◌, ◌≡◌, refl, arith, ◌==◌, true, false, some, none, List, [], ◌∷◌,
  ◌++◌, find_index, ◌⊎◌,
}
use neuro_spark.Prelude.Int.{pos}
use neuro_spark.Vfs.{is_neg, str_eq, vfs_err_no_space, vfs_ok, vfs_seek_set}
use neuro_spark.Vfs.Pipes.{
  Pipes, VfsPipe, take_bytes, put_bytes, pipe_read_backend, pipe_write_backend,
}
use neuro_spark.Vfs.Pipes.Fifo.{IsRing, contents}
use neuro_spark.Vfs.Pipes.Backend.{IsEnd, ReadsFront, WritesBack, pipe_read_front, pipe_write_back}
use neuro_spark.Vfs.Pipes.History.{Call, reading, writing, call, calls, pipe_fifo}
use neuro_spark.Vfs.Descriptors.{
  VfsBackendOps, State, vfs_close_all_for_task, vfs_clone_task_fds, task_max_fds, find_op,
  current_task_id, task_fd_to_global, alloc_task_fd, alloc_global_fd, on_handle, vfs_write,
}
use neuro_spark.Vfs.Descriptors.Balance.{Balanced, nothing}
use neuro_spark.Vfs.Descriptors.Operations.{close_all_lem}
use neuro_spark.Vfs.Descriptors.Clone.{clone_lem, cloned}
use neuro_spark.Vfs.Mounts.{
  vfs_mount, vfs_open, resolve_mount, best_mount, better_mount, covers, str_prefix, drop, rel_path,
  opened, install, vfs_write_file, vfs_read_file, write_loop, max_mounts,
}
use neuro_spark.Vfs.Mounts.Longest.{resolve_longest}
use neuro_spark.Vfs.Mounts.Below.{BelowMount}
use neuro_spark.Vfs.Calls
use neuro_spark.Vfs.Ramdisk.{
  Ramdisk, ramdisk_open, ramdisk_extract_name, scan_name, open_entry, open_handle, create_entry,
  ramdisk_find_entry, ramdisk_alloc_entry, ramdisk_alloc_handle, ramdisk_read, ramdisk_write,
  ramdisk_lseek, ramdisk_ftruncate,
}
use neuro_spark.Vfs.Ramdisk.Valid.{IsValid}
use neuro_spark.Vfs.Ramdisk.Content.{At, write_seek_read, truncate_uncovers}
use neuro_spark.Vfs.Ramdisk.Session
use neuro_spark.Vfs.World.{
  World, backend_at, ramdisk_backend_ops, vfs_init, cleared, vfs_pipe, ramdisk_ops,
}
use neuro_spark.Vfs.World.NoPipe.{vfs_pipe_fails}
use neuro_spark.Vfs.World.Init.{calls-vfs_init, vfs_init-IsValid, vfs_init-HasLengths}
use neuro_spark.Vfs.World.RoundTrip.{write_file_read_file}

-- The ramdisk stands in for the other backends.
abbrev no_others : ℕ → VfsBackendOps (World ℕ)
no_others n = ramdisk_backend_ops

-- Whatever memory holds before vfs_init; task 1 runs.
abbrev blank : State (World ℕ)
blank = record {
  mounts = λ i. record { used = true; mount_path = []; mount_len = 7; ops = none };
  fd_table =
      λ g. record { used = true; ops = none; backend_handle = pos 3; flags = 9; ref_count = 4 };
  task_fd_map = λ t i. pos 5;
  current = pos 1;
  world = record {
    pipes = record {
      pipes = λ i. record {
        used = true;
        bytes = λ k. 0;
        head = 1;
        tail = 2;
        count = 3;
        read_refs = 4;
        write_refs = 5;
      };
      handles = λ i. record { used = true; pipe_idx = pos 0; writable = true };
    };
    ramdisk = record {
      files = λ i. record {
        used = true;
        name = b'x' ∷ [];
        size = 9;
        inode = 8;
        mtime = 7;
        bytes = λ k. 42;
      };
      handles = λ i. record { used = true; entry_idx = pos 0; offset = 1; flags = 3 };
      next_inode = 5;
      mtime_tick = 6;
    };
    others = 0;
  };
}

-- "/r", "/r/a", and what they are below the mount.
abbrev r_path : List ℕ
r_path = b'/' ∷ b'r' ∷ []

abbrev file_path : List ℕ
file_path = b'r' ∷ b'/' ∷ b'a' ∷ []

abbrev file_rel : List ℕ
file_rel = b'/' ∷ b'a' ∷ []

abbrev file_name : List ℕ
file_name = b'a' ∷ []

-- The ramdisk is mounted at "/r".
mounted : State (World ℕ)
unfolding vfs_init vfs_mount
mounted = (vfs_mount r_path (some ramdisk_ops) (vfs_init blank)).1

abbrev text : ℕ → ℕ
text k = k * 3 + 65

abbrev zeros : ℕ → ℕ
zeros k = 0

mounted-IsValid : IsValid mounted.world.ramdisk
unfolding mounted vfs_init vfs_mount cleared str_eq find_index
mounted-IsValid = vfs_init-IsValid blank

mounted_resolves : resolve_mount (b'/' ∷ file_path) mounted ≡ some (some ramdisk_ops, file_rel)
unfolding mounted vfs_init vfs_mount cleared str_eq resolve_mount best_mount better_mount covers
    str_prefix drop rel_path find_index
mounted_resolves = refl

extracted : ramdisk_extract_name file_rel ≡ some file_name
unfolding ramdisk_extract_name scan_name
extracted = refl

-- Three bytes are stored.
stored_three : (vfs_write_file (backend_at no_others) (b'/' ∷ file_path) text 3 mounted).0 ≡ pos 3
unfolding mounted vfs_init vfs_mount cleared str_eq resolve_mount best_mount better_mount covers
    str_prefix drop rel_path find_index vfs_write_file vfs_open opened install write_loop vfs_write
    on_handle find_op backend_at ramdisk_open ramdisk_extract_name scan_name open_entry open_handle
    create_entry ramdisk_find_entry ramdisk_alloc_entry ramdisk_alloc_handle ramdisk_write
    task_fd_to_global current_task_id alloc_task_fd alloc_global_fd
stored_three = refl

write_file_read_file_example :
    let s' = (vfs_write_file (backend_at no_others) (b'/' ∷ file_path) text 3 mounted).1 in
    let (n, b, s2) = vfs_read_file (backend_at no_others) (b'/' ∷ file_path) zeros 10 s' in
    (n ≡ pos 3) × ((k : ℕ) → k < 3 → b k ≡ text k)
write_file_read_file_example =
    write_file_read_file no_others b'/' file_path file_rel file_name 3 10 text zeros mounted
      mounted-IsValid mounted_resolves extracted (omega arith) (omega arith) stored_three

vfs_pipe_fails_example : ((vfs_pipe mounted).0 ≡ vfs_err_no_space) × ((vfs_pipe mounted).1 ≡ none)
vfs_pipe_fails_example = vfs_pipe_fails mounted

-- A pipe whose ends are the handles 0 and 1.
abbrev a_pipe : VfsPipe
a_pipe = record {
  used = true;
  bytes = text;
  head = 1023;
  tail = 1;
  count = 2;
  read_refs = 1;
  write_refs = 1;
}

abbrev two_ends : Pipes
two_ends = record {
  pipes = λ i. a_pipe;
  handles = λ i. record { used = true; pipe_idx = pos 7; writable = i == 1 };
}

reading-IsEnd : IsEnd (pos 0) false 7 two_ends
reading-IsEnd = record { good = refl; kind = refl; pipe_at = refl }

writing-IsEnd : IsEnd (pos 1) true 7 two_ends
writing-IsEnd = record { good = refl; kind = refl; pipe_at = refl }

a_pipe-IsRing : IsRing a_pipe
a_pipe-IsRing = record { head_in = omega arith; count_in = omega arith; tail_at = refl }

pipe_read_front_example :
    ReadsFront 7 5 two_ends (pipe_read_backend (pos 0) (some zeros) 5 two_ends)
pipe_read_front_example = pipe_read_front (pos 0) 7 5 zeros two_ends reading-IsEnd a_pipe-IsRing

pipe_write_back_example :
    WritesBack 7 5 text two_ends (pipe_write_backend (pos 1) (some text) 5 two_ends)
pipe_write_back_example =
    pipe_write_back (pos 1) 7 5 text two_ends writing-IsEnd a_pipe-IsRing (omega arith)

abbrev three_calls : List Call
three_calls = writing 4 text ∷ reading 3 zeros ∷ reading 9 zeros ∷ []

pipe_fifo_example :
    let x =
      calls (pos 0) (pos 1) three_calls (record { sent = []; received = []; pipes = two_ends }) in
    x.received ++ contents (x.pipes.pipes 7) ≡ contents (two_ends.pipes 7) ++ x.sent
pipe_fifo_example =
    pipe_fifo (pos 0) (pos 1) 7 two_ends reading-IsEnd writing-IsEnd a_pipe-IsRing three_calls

-- All bytes come out in order.
fifo_run :
    (calls
      (pos 0)
      (pos 1)
      three_calls
      (record { sent = []; received = []; pipes = two_ends })).received
    ≡ text 1023 ∷ text 0 ∷ text 0 ∷ text 1 ∷ text 2 ∷ text 3 ∷ []
unfolding calls call pipe_read_backend pipe_write_backend take_bytes put_bytes
fifo_run = refl

abbrev some_opens : List Calls.Call
some_opens = Calls.opening file_rel 7 ∷ Calls.dup (pos 0) ∷ []

-- Task 1 has a file open twice.
abbrev sharing : State (World ℕ)
sharing = Calls.calls (backend_at no_others) some_opens (vfs_init blank)

sharing-Balanced : Balanced nothing sharing
sharing-Balanced = calls-vfs_init no_others some_opens blank (tt, (tt, tt))

-- Task 1 opens a file twice, task 2 is cleared, gets the descriptors of task 1, and task 1 ends.
abbrev some_calls : List Calls.Call
some_calls =
    Calls.opening file_rel 7
    ∷ Calls.dup (pos 0)
    ∷ Calls.exiting (pos 2)
    ∷ Calls.cloning (pos 1) (pos 2)
    ∷ Calls.exiting (pos 1)
    ∷ []

none_left :
    (j : ℕ)
    → j < task_max_fds
    → is_neg ((vfs_close_all_for_task (backend_at no_others) (pos 2) sharing).task_fd_map 2 j)
      ≡ true
none_left = (close_all_lem (backend_at no_others) 2 sharing (omega arith) sharing-Balanced).1

calls-vfs_init_example :
    Balanced nothing (Calls.calls (backend_at no_others) some_calls (vfs_init blank))
unfolding Calls.call Calls.calls
calls-vfs_init_example =
    calls-vfs_init no_others some_calls blank
      (tt, (tt, (tt, (((λ e. ground arith), none_left), (tt, tt)))))

-- Task 2 has nothing open.
abbrev alone : State (World ℕ)
alone = vfs_close_all_for_task (backend_at no_others) (pos 2) sharing

clone_lem_example :
    let (rc, s') = vfs_clone_task_fds (pos 1) (pos 2) alone in
    (rc ≡ vfs_ok)
    × Balanced nothing s'
    × ((j : ℕ) → s'.task_fd_map 1 j ≡ alone.task_fd_map 1 j)
    × ((j : ℕ) → j < task_max_fds → s'.task_fd_map 2 j ≡ cloned (alone.task_fd_map 1 j))
clone_lem_example =
    clone_lem 1 2 alone (omega arith) (omega arith) (omega arith)
      (close_all_lem (backend_at no_others) 2 sharing (omega arith) sharing-Balanced).0
      (close_all_lem (backend_at no_others) 2 sharing (omega arith) sharing-Balanced).1

close_all_lem_example :
    let s' = vfs_close_all_for_task (backend_at no_others) (pos 1) sharing in
    Balanced nothing s' × ((i : ℕ) → i < task_max_fds → is_neg (s'.task_fd_map 1 i) ≡ true)
close_all_lem_example =
    close_all_lem (backend_at no_others) 1 sharing (omega arith) sharing-Balanced

abbrev a_path : List ℕ
a_path = b'/' ∷ file_path

resolve_longest_example :
    let s = vfs_init blank in
    ((resolve_mount a_path s ≡ none)
      × ((j : ℕ) (rest : List ℕ)
          → j < max_mounts
          → (s.mounts j).used ≡ true
          → ¬ BelowMount a_path (s.mounts j) rest))
    ⊎ ((i : ℕ) × (i < max_mounts)
        × ((s.mounts i).used ≡ true)
        × ((rest : List ℕ) × BelowMount a_path (s.mounts i) rest
            × (resolve_mount a_path s ≡ some ((s.mounts i).ops, rest)))
        × ((j : ℕ) (rest : List ℕ)
            → j < max_mounts
            → (s.mounts j).used ≡ true
            → BelowMount a_path (s.mounts j) rest
            → length (s.mounts j).mount_path ≤ length (s.mounts i).mount_path))
resolve_longest_example = resolve_longest a_path (vfs_init blank) (vfs_init-HasLengths blank)

-- A ramdisk with one file, open for reading and writing at the handle 2.
abbrev one_file : Ramdisk
one_file = record {
  files = λ i. record {
    used = i == 0;
    name = file_name;
    size = 0;
    inode = 1;
    mtime = 1;
    bytes = zeros;
  };
  handles = λ i. record { used = i == 2; entry_idx = pos 0; offset = 0; flags = 3 };
  next_inode = 2;
  mtime_tick = 2;
}

one_file-At : At one_file 2 0 0 3
one_file-At = record {
  handle_in = omega arith;
  used_at = refl;
  entry_at = refl;
  offset_at = refl;
  flags_at = refl;
}

write_seek_read_example :
    let (rc1, s1) = ramdisk_write (pos 2) (some text) 6 one_file in
    let (rc2, s2) = ramdisk_lseek (pos 2) (pos 0) vfs_seek_set s1 in
    let (rc3, out, s3) = ramdisk_read (pos 2) (some zeros) 6 s2 in
    (rc1 ≡ pos 6)
    × (rc2 ≡ pos 0)
    × (rc3 ≡ pos 6)
    × ((b : ℕ → ℕ) × (out ≡ some b) × ((i : ℕ) → i < 6 → b i ≡ text i))
write_seek_read_example =
    write_seek_read 2 0 0 3 6 text zeros one_file one_file-At refl refl (omega arith) (omega arith)

truncate_uncovers_example :
    let s1 = (ramdisk_ftruncate (pos 2) 0 one_file).1 in
    let s2 = (ramdisk_ftruncate (pos 2) 5 s1).1 in
    let (rc, out, s3) = ramdisk_read (pos 2) (some text) 5 s2 in
    (rc ≡ pos 5)
    × ((b : ℕ → ℕ) × (out ≡ some b) × ((i : ℕ) → i < 5 → b i ≡ (one_file.files 0).bytes i))
truncate_uncovers_example = truncate_uncovers 2 0 0 3 5 text one_file one_file-At refl (omega arith)

abbrev some_requests : List Session.Request
some_requests =
    Session.opening file_rel 7
    ∷ Session.writing (pos 0) (some text) 9000
    ∷ Session.deleting file_rel
    ∷ Session.closing (pos 0)
    ∷ Session.renaming file_rel (b'b' ∷ [])
    ∷ []

serve_all-IsValid_example : IsValid (Session.serve_all some_requests (vfs_init blank).world.ramdisk)
serve_all-IsValid_example =
    Session.serve_all-IsValid some_requests (vfs_init blank).world.ramdisk (vfs_init-IsValid blank)
