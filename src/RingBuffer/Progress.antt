-- ===== src/RingBuffer/Progress.antt =====
-- A call of `pop` ends after three steps of its own, whatever the producer does in between.
use cpp_meet.Common.{
  ℕ, ◌≡◌, ◌≢◌, refl, ap, ◌∙◌, List, [], ◌∷◌, ◌++◌, ◌==◌, map, if_elim, ==_iff, get_or,
}
use cpp_meet.RingBuffer.{
  Consumer, Event, Move, Producer, RingBuffer, World, c_checked, c_read, c_ready, consume,
  next_index, p_checked, p_ready, p_written, pop_step, popped, produce, push_step, pushed, run,
  step, was_empty, was_full,
}
use cpp_meet.RingBuffer.Queue.{items_out}

module _ {ℓ} {T : Type ℓ} where
  items_out-append : (es fs : List (Event T)) → items_out (es ++ fs) ≡ items_out es ++ items_out fs
  items_out-append [] fs = refl
  items_out-append (pushed x ∷ es) fs = items_out-append es fs
  items_out-append (was_full ∷ es) fs = items_out-append es fs
  items_out-append (popped x ∷ es) fs = ap (λ t. x ∷ t) (items_out-append es fs)
  items_out-append (was_empty ∷ es) fs = items_out-append es fs

module _ {ℓ} {T : Type ℓ} (n : ℕ) (d : T) where
  none_out : (r : RingBuffer T) (p : Producer T) (x : T) → items_out (push_step n d r p x).2 ≡ []
  unfolding push_step
  none_out r p_ready x =
      if_elim (λ (t : RingBuffer T × Producer T × List (Event T)). items_out t.2 ≡ [])
        (next_index n d r.head == r.tail) (r, p_ready, was_full ∷ []) (r, p_checked r.head x, [])
        (λ e. refl) (λ e. refl)
  none_out r (p_checked h y) x = refl
  none_out r (p_written h y) x = refl

  -- What comes out in a run.
  abbrev out : World T → List (Move T) → List T
  out w ms = items_out (run n d w ms).1

  out-step :
      (w : World T) (m : Move T) (ms : List (Move T))
      → out w (m ∷ ms) ≡ items_out (step n d w m).1 ++ out (step n d w m).0 ms
  unfolding run
  out-step w m ms = items_out-append (step n d w m).1 (run n d (step n d w m).0 ms).1

  -- The producer's steps leave the consumer where it is.
  skip_produced :
      (w : World T) (xs : List T) (ms : List (Move T))
      → (v : World T) × (v.consumer ≡ w.consumer) × (out w (map produce xs ++ ms) ≡ out v ms)
  unfolding step
  skip_produced w [] ms = (w, refl, refl)
  skip_produced w (x ∷ xs) ms =
      let (v, same, later) = skip_produced (step n d w (produce x)).0 xs ms in
      (
        v,
        same,
        out-step w (produce x) (map produce xs ++ ms)
            ∙ ap (λ t. t ++ out (step n d w (produce x)).0 (map produce xs ++ ms))
                (none_out w.ring w.producer x)
            ∙ later,
      )

  -- A step of the consumer, by where it stands.
  consume_at :
      (w : World T) (c : Consumer T) (ms : List (Move T))
      → w.consumer ≡ c
      → items_out (pop_step n d w.ring c).2 ≡ []
      → (out w (consume ∷ ms) ≡ out (step n d w consume).0 ms)
        × ((step n d w consume).0.consumer ≡ (pop_step n d w.ring c).1)
  unfolding step
  consume_at w c ms e quiet = (
    out-step w consume ms
        ∙ ap (λ t. t ++ out (step n d w consume).0 ms)
            (ap (λ t. items_out (pop_step n d w.ring t).2) e ∙ quiet),
    ap (λ t. (pop_step n d w.ring t).1) e,
  )

  finish : (w : World T) (t : ℕ) (x : T) → w.consumer ≡ c_read t x → out w (consume ∷ []) ≡ x ∷ []
  unfolding step run pop_step
  finish w t x e = ap (λ c. items_out ((pop_step n d w.ring c).2 ++ [])) e

  read_at :
      (r : RingBuffer T) (t : ℕ)
      → (items_out (pop_step n d r (c_checked t)).2 ≡ [])
        × ((pop_step n d r (c_checked t)).1 ≡ c_read t (get_or r.buf t d))
  unfolding pop_step
  read_at r t = (refl, refl)

  check_at :
      (r : RingBuffer T)
      → r.tail ≢ r.head
      → (items_out (pop_step n d r c_ready).2 ≡ [])
        × ((pop_step n d r c_ready).1 ≡ c_checked r.tail)
  unfolding pop_step
  check_at r apart =
      if_elim
        (λ (t : RingBuffer T × Consumer T × List (Event T)).
          (items_out t.2 ≡ []) × (t.1 ≡ c_checked r.tail))
        (r.tail == r.head) (r, c_ready, was_empty ∷ []) (r, c_checked r.tail, [])
        (λ e. absurd (apart ((==_iff r.tail r.head).0 e))) (λ e. (refl, refl))

  -- A consumer outside `pop`, on a ring that is not empty, has popped one item after three steps of its
  -- own, with any steps of the producer between them.
  pub pop_progress :
      (w : World T) (xs ys : List T)
      → w.consumer ≡ c_ready
      → w.ring.tail ≢ w.ring.head
      → (x : T) × (items_out
            (run n d w
              (consume ∷ (map produce xs ++ (consume ∷ (map produce ys ++ (consume ∷ [])))))).1
          ≡ x ∷ [])
  pop_progress w xs ys ready apart =
      let last_part = map produce ys ++ (consume ∷ []) in
      let (quiet, checked) = check_at w.ring apart in
      let (out1, at1) =
        consume_at w c_ready (map produce xs ++ (consume ∷ last_part)) ready quiet in
      let (v, same_v, out2) = skip_produced (step n d w consume).0 xs (consume ∷ last_part) in
      let (quiet3, read3) = read_at v.ring w.ring.tail in
      let (out3, at3) =
        consume_at v (c_checked w.ring.tail) last_part (same_v ∙ at1 ∙ checked) quiet3 in
      let (u, same_u, out4) = skip_produced (step n d v consume).0 ys (consume ∷ []) in
      let item = get_or v.ring.buf w.ring.tail d in
      (item, out1 ∙ out2 ∙ out3 ∙ out4 ∙ finish u w.ring.tail item (same_u ∙ at3 ∙ read3))
