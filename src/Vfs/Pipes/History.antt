-- ===== src/Vfs/Pipes/History.antt =====
-- kernel/vfs.c: any sequence of reads and writes on the two ends of a pipe.
use neuro_spark.Prelude.{
  ℕ, ◌-◌, ◌≡◌, sym, ap, ◌∙◌, Bool, true, false, ◌&&◌, List, [], ◌∷◌, ◌++◌, some, none, Option,
  arith, ltb, ◌==◌, if◌then◌else◌,
}
use native.Mathlib.Decide.{dec_lt}
use mathlib.Core.List.{append_assoc, append-nil}
use neuro_spark.Prelude.Int.{ℤ, pos, pos_part}
use neuro_spark.Vfs.{vfs_err_would_block, vfs_err_io}
use neuro_spark.Vfs.Pipes.{Pipes, pipe_read_backend, pipe_write_backend, pipe_buffer_size}
use neuro_spark.Vfs.Pipes.Fifo.{IsRing, contents, slice, smaller}
use neuro_spark.Vfs.Pipes.Backend.{IsEnd, pipe_read_front, pipe_write_back, pipe_write_broken}

-- A call on one of the two ends of a pipe.
pub data Call : Type 0 where
  reading : ℕ → (ℕ → ℕ) → Call
  writing : ℕ → (ℕ → ℕ) → Call

-- The bytes that all calls so far put in and took out.
pub record History : Type 0 where
  pub sent : List ℕ
  pub received : List ℕ
  pub pipes : Pipes

or_null : Option (ℕ → ℕ) → ℕ → ℕ
or_null none i = 0
or_null (some f) i = f i

unfoldable pub call : ℤ → ℤ → Call → History → History
unfolding or_null
call r w (reading size out) x =
    let (rc, out', s') = pipe_read_backend r (some out) size x.pipes in
    record x { received = x.received ++ slice (or_null out') 0 (pos_part rc); pipes = s' }
call r w (writing size input) x =
    let (rc, s') = pipe_write_backend w (some input) size x.pipes in
    record x { sent = x.sent ++ slice input 0 (pos_part rc); pipes = s' }

unfoldable pub calls : ℤ → ℤ → List Call → History → History
calls r w [] x = x
calls r w (c ∷ cs) x = calls r w cs (call r w c x)

pub record Conserves (r w : ℤ) (k : ℕ) (start : List ℕ) (x : History) : Type 0 where
  pub reader : IsEnd r false k x.pipes
  pub writer : IsEnd w true k x.pipes
  pub ring : IsRing (x.pipes.pipes k)
  pub balance : x.received ++ contents (x.pipes.pipes k) ≡ start ++ x.sent

keep-IsEnd :
    {h : ℤ} {b : Bool} {k : ℕ} {s s' : Pipes}
    → IsEnd h b k s
    → s'.handles ≡ s.handles
    → IsEnd h b k s'
keep-IsEnd e q = record { good = rw q e.good; kind = rw q e.kind; pipe_at = rw q e.pipe_at }

read_bytes :
    (m writers : ℕ) → pos_part (if m == 0 && ltb 0 writers then vfs_err_would_block else pos m) ≡ m
read_bytes m writers = ground arith

written_bytes : (m : ℕ) → pos_part (if m == 0 then vfs_err_would_block else pos m) ≡ m
written_bytes m = ground arith

reading-Conserves :
    (r w : ℤ) (k : ℕ) (start : List ℕ) (size : ℕ) (out : ℕ → ℕ) (x : History)
    → Conserves r w k start x
    → Conserves r w k start (call r w (reading size out) x)
unfolding call or_null
reading-Conserves r w k start size out x v =
    let s = x.pipes in
    let t = pipe_read_front r k size out s v.reader v.ring in
    let m = smaller size (s.pipes k).count in
    let n : pos_part (pipe_read_backend r (some out) size s).0 ≡ m =
      rw t.result (read_bytes m (s.pipes k).write_refs) in
    let q = t.queue in
    record {
      reader = keep-IsEnd v.reader t.rest.handles_at;
      writer = keep-IsEnd v.writer t.rest.handles_at;
      ring = t.ring;
      balance =
          rw (n, t.buffer_at)
            (append_assoc x.received (slice t.buffer 0 m) _
              ∙ ap (λ (l : List ℕ). x.received ++ l) q
              ∙ v.balance);
    }

writing-Conserves :
    (r w : ℤ) (k : ℕ) (start : List ℕ) (size : ℕ) (input : ℕ → ℕ) (x : History)
    → Conserves r w k start x
    → Conserves r w k start (call r w (writing size input) x)
unfolding call
writing-Conserves r w k start size input x v =
    let s = x.pipes in
    let m = smaller size (pipe_buffer_size - (s.pipes k).count) in
    elim (dec_lt 0 (s.pipes k).read_refs) [
      | no z ↦
          let e : pipe_write_backend w (some input) size s ≡ (vfs_err_io, s) =
            pipe_write_broken w k size input s v.writer (omega arith) in
          rw e (record {
            reader = v.reader;
            writer = v.writer;
            ring = v.ring;
            balance = v.balance ∙ ap (λ (l : List ℕ). start ++ l) (sym (append-nil x.sent));
          })
      | yes h ↦
          let t = pipe_write_back w k size input s v.writer v.ring h in
          let n : pos_part (pipe_write_backend w (some input) size s).0 ≡ m =
            rw t.result (written_bytes m) in
          record {
            reader = keep-IsEnd v.reader t.rest.handles_at;
            writer = keep-IsEnd v.writer t.rest.handles_at;
            ring = t.ring;
            balance =
                rw (n, t.queue)
                  (sym (append_assoc x.received (contents (s.pipes k)) (slice input 0 m))
                    ∙ ap (λ (l : List ℕ). l ++ slice input 0 m) v.balance
                    ∙ append_assoc start x.sent (slice input 0 m));
          }
    ]

calls-Conserves :
    (r w : ℤ) (k : ℕ) (start : List ℕ) (cs : List Call) (x : History)
    → Conserves r w k start x
    → Conserves r w k start (calls r w cs x)
unfolding calls
calls-Conserves r w k start [] x v = v
calls-Conserves r w k start (reading size out ∷ cs) x v =
    calls-Conserves r w k start cs _ (reading-Conserves r w k start size out x v)
calls-Conserves r w k start (writing size input ∷ cs) x v =
    calls-Conserves r w k start cs _ (writing-Conserves r w k start size input x v)

-- Whatever is read and written through the two ends of a pipe that is a ring, in any order and with
-- any sizes, the bytes received so far, followed by those still in the pipe, are those that were in
-- it at the start followed by the bytes that the writes reported as sent: none is lost, doubled or
-- overtaken.
pub pipe_fifo :
    (r w : ℤ) (k : ℕ) (s : Pipes)
    → IsEnd r false k s
    → IsEnd w true k s
    → IsRing (s.pipes k)
    → (cs : List Call)
    → let x = calls r w cs (record { sent = []; received = []; pipes = s }) in
      x.received ++ contents (x.pipes.pipes k) ≡ contents (s.pipes k) ++ x.sent
pipe_fifo r w k s a b v cs =
    (calls-Conserves r w k (contents (s.pipes k)) cs _ (record {
      reader = a;
      writer = b;
      ring = v;
      balance = sym (append-nil (contents (s.pipes k)));
    })).balance
