-- ===== src/Vfs/Pipes/Fifo.antt =====
-- kernel/vfs.c: a pipe is a bounded queue of bytes. The queue is the window of the ring.
use neuro_spark.Prelude.{
  ℕ, zero, suc, ◌+◌, ◌-◌, ◌%◌, ◌≤◌, ◌<◌, ◌≡◌, refl, sym, ap, subst, ◌∙◌, List, [], ◌∷◌, ◌++◌, arith,
  ltb, leb, if◌then◌else◌, update, update_self, Bool-cases, inl, inr,
}
use neuro_spark.Prelude.Ring.{window, window_of_pos, window-push}
use neuro_spark.Vfs.Pipes.{VfsPipe, take_bytes, put_bytes, pipe_buffer_size}
use mathlib.Core.List.{append_assoc, append-nil}

pub record IsRing (p : VfsPipe) : Type 0 where
  pub head_in : p.head < pipe_buffer_size
  pub count_in : p.count ≤ pipe_buffer_size
  pub tail_at : p.tail ≡ (p.head + p.count) % pipe_buffer_size

abbrev pub contents : VfsPipe → List ℕ
contents p = window pipe_buffer_size p.bytes p.head p.count

-- `n` bytes of a buffer from the offset `d` on.
abbrev pub slice : (ℕ → ℕ) → ℕ → ℕ → List ℕ
slice f d zero = []
slice f d (suc n) = f d ∷ slice f (d + 1) n

abbrev pub smaller : ℕ → ℕ → ℕ
smaller a b = if leb a b then a else b

-- What the reading loop does, `m` bytes being taken.
pub record Taken (p : VfsPipe) (out : ℕ → ℕ) (done m : ℕ) (r : ℕ × (ℕ → ℕ) × VfsPipe) : Type 0 where
  pub done_at : r.0 ≡ done + m
  pub below : (i : ℕ) → i < done → r.1 i ≡ out i
  pub queue : slice r.1 done m ++ contents r.2 ≡ contents p
  pub left : r.2.count + m ≡ p.count
  pub ring : IsRing r.2
  pub ends : (r.2.read_refs ≡ p.read_refs) × (r.2.write_refs ≡ p.write_refs) × (r.2.used ≡ p.used)

next-IsRing :
    (p : VfsPipe)
    → IsRing p
    → 0 < p.count
    → IsRing (record p { head = (p.head + 1) % pipe_buffer_size; count = p.count - 1 })
next-IsRing p v h = record {
  head_in = omega arith;
  count_in = omega (arith, v.count_in);
  tail_at = omega (arith, v.tail_at, v.head_in, v.count_in);
}

abbrev advanced : VfsPipe → VfsPipe
advanced p = record p { head = (p.head + 1) % pipe_buffer_size; count = p.count - 1 }

Taken-step :
    (p : VfsPipe) (out : ℕ → ℕ) (done m : ℕ) (r : ℕ × (ℕ → ℕ) × VfsPipe)
    → IsRing p
    → 0 < p.count
    → Taken (advanced p) (update out done (p.bytes p.head)) (done + 1) m r
    → Taken p out done (suc m) r
Taken-step p out done m r v h t =
    let here : r.1 done ≡ p.bytes p.head =
      t.below done (omega arith) ∙ update_self out done (p.bytes p.head) in
    let front : contents p ≡ p.bytes p.head ∷ contents (advanced p) =
      window_of_pos pipe_buffer_size p.bytes p.head p.count v.head_in h in
    record {
      done_at = omega (arith, t.done_at);
      below = λ i l. ground (arith, t.below i);
      queue = rw (here, t.queue, front) refl;
      left = omega (arith, t.left);
      ring = t.ring;
      ends = t.ends;
    }

Taken-nothing :
    (p : VfsPipe) (out : ℕ → ℕ) (done : ℕ) → IsRing p → Taken p out done 0 (done, out, p)
Taken-nothing p out done v = record {
  done_at = omega arith;
  below = λ i l. refl;
  queue = refl;
  left = omega arith;
  ring = v;
  ends = (refl, refl, refl);
}

pub take_bytes_lem :
    (n : ℕ) (p : VfsPipe) (out : ℕ → ℕ) (done : ℕ)
    → IsRing p
    → Taken p out done (smaller n p.count) (take_bytes n p out done)
unfolding take_bytes
take_bytes_lem zero p out done v =
    let e : 0 ≡ smaller 0 p.count = ground arith in
    subst (λ m. Taken p out done m (done, out, p)) e (Taken-nothing p out done v)
take_bytes_lem (suc n) p out done v = elim (Bool-cases (ltb 0 p.count)) [
  | inl e ↦
      let h : 0 < p.count = ground arith in
      let m : suc (smaller n (p.count - 1)) ≡ smaller (suc n) p.count = ground arith in
      rw (e, ← m)
        (Taken-step p out done (smaller n (p.count - 1)) _ v h (
          take_bytes_lem n (advanced p) (update out done (p.bytes p.head)) (done + 1)
            (next-IsRing p v h)))
  | inr e ↦
      let m : 0 ≡ smaller (suc n) p.count = ground arith in rw (e, ← m) (Taken-nothing p out done v)
]

-- What the writing loop does, `m` bytes being put.
pub record Put (p : VfsPipe) (input : ℕ → ℕ) (done m : ℕ) (r : ℕ × VfsPipe) : Type 0 where
  pub done_at : r.0 ≡ done + m
  pub queue : contents r.1 ≡ contents p ++ slice input done m
  pub count_at : r.1.count ≡ p.count + m
  pub ring : IsRing r.1
  pub ends : (r.1.read_refs ≡ p.read_refs) × (r.1.write_refs ≡ p.write_refs) × (r.1.used ≡ p.used)

abbrev extended : VfsPipe → ℕ → VfsPipe
extended p b = record p {
  bytes = update p.bytes p.tail b;
  tail = (p.tail + 1) % pipe_buffer_size;
  count = p.count + 1;
}

extended-IsRing :
    (p : VfsPipe) (b : ℕ) → IsRing p → p.count < pipe_buffer_size → IsRing (extended p b)
extended-IsRing p b v h = record {
  head_in = v.head_in;
  count_in = omega arith;
  tail_at = omega (arith, v.tail_at, v.head_in, v.count_in);
}

contents-extended :
    (p : VfsPipe) (b : ℕ)
    → IsRing p
    → p.count < pipe_buffer_size
    → contents (extended p b) ≡ contents p ++ (b ∷ [])
contents-extended p b v h =
    let e : p.count + 1 ≡ suc p.count = omega arith in
    ap (λ n. window pipe_buffer_size (update p.bytes p.tail b) p.head n) e
    ∙ window-push pipe_buffer_size p.bytes p.head p.count p.tail b v.head_in h v.tail_at

Put-step :
    (p : VfsPipe) (input : ℕ → ℕ) (done m : ℕ) (r : ℕ × VfsPipe)
    → IsRing p
    → p.count < pipe_buffer_size
    → Put (extended p (input done)) input (done + 1) m r
    → Put p input done (suc m) r
Put-step p input done m r v h t = record {
  done_at = omega (arith, t.done_at);
  queue =
      t.queue
      ∙ ap (λ (l : List ℕ). l ++ slice input (done + 1) m) (contents-extended p (input done) v h)
      ∙ append_assoc (contents p) (input done ∷ []) (slice input (done + 1) m);
  count_at = omega (arith, t.count_at);
  ring = t.ring;
  ends = t.ends;
}

Put-nothing : (p : VfsPipe) (input : ℕ → ℕ) (done : ℕ) → IsRing p → Put p input done 0 (done, p)
Put-nothing p input done v = record {
  done_at = omega arith;
  queue = sym (append-nil (contents p));
  count_at = omega arith;
  ring = v;
  ends = (refl, refl, refl);
}

pub put_bytes_lem :
    (n : ℕ) (p : VfsPipe) (input : ℕ → ℕ) (done : ℕ)
    → IsRing p
    → Put p input done (smaller n (pipe_buffer_size - p.count)) (put_bytes n p input done)
unfolding put_bytes
put_bytes_lem zero p input done v =
    let e : 0 ≡ smaller 0 (pipe_buffer_size - p.count) = ground arith in
    subst (λ m. Put p input done m (done, p)) e (Put-nothing p input done v)
put_bytes_lem (suc n) p input done v = elim (Bool-cases (ltb p.count pipe_buffer_size)) [
  | inl e ↦
      let h : p.count < pipe_buffer_size = ground arith in
      let m : suc (smaller n (pipe_buffer_size - (p.count + 1)))
          ≡ smaller (suc n) (pipe_buffer_size - p.count) =
        ground arith in
      rw (e, ← m)
        (Put-step p input done (smaller n (pipe_buffer_size - (p.count + 1))) _ v h (
          put_bytes_lem n (extended p (input done)) input (done + 1)
            (extended-IsRing p (input done) v h)))
  | inr e ↦
      let m : 0 ≡ smaller (suc n) (pipe_buffer_size - p.count) = ground (arith, v.count_in) in
      rw (e, ← m) (Put-nothing p input done v)
]
