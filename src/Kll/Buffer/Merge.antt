-- ===== src/Kll/Buffer/Merge.antt =====
-- `merge_sorted_arrays` in place, with the destination behind the first array and up to the end of
-- the second one.
use whylogs_datasketches.Base.{
  range_sum, range_sum_congr, ==_refl, ==_ne, ◌∙◌, true, false, ℕ, zero, suc, ◌+◌, ◌≤◌, ◌<◌, ◌≡◌,
  ◌⊎◌, refl, Bool, Bool-cases, inl, inr, if◌then◌else◌, Ends, Ends-map, arith, ap, subst, sym,
}
use whylogs_datasketches.Kll.Buffer.{move_item, takes_a, merge_loop, merge_sorted_arrays}

pub later : (c rounds i : ℕ) → (i < c) ⊎ (c + suc rounds ≤ i) → (i < c + 1) ⊎ (c + 1 + rounds ≤ i)
later c rounds i (inl l) = inl (omega arith)
later c rounds i (inr r) = inr (omega arith)

pub apart : (c rounds i : ℕ) → (i < c) ⊎ (c + suc rounds ≤ i) → ¬ (i ≡ c)
apart c rounds i (inl l) = omega arith
apart c rounds i (inr r) = omega arith

module _ {T : Type 0} where
  pub moved-at : (buf : ℕ → T) (from to : ℕ) → move_item buf from to to ≡ buf from
  moved-at buf from to = ground (arith, ==_refl to)

  pub moved-other : (buf : ℕ → T) (from to i : ℕ) → ¬ (i ≡ to) → move_item buf from to i ≡ buf i
  moved-other buf from to i ne = ground (arith, ==_ne i to ne)

module _ {T : Type 0} (less : T → T → Bool) where
  -- What a merge of the places from `a` and from `b` on into those from `c` on does.
  pub record Merged (rounds c a left_a b left_b : ℕ) (buf buf' : ℕ → T) : Type 0 where
    pub sums :
        (A : T → ℕ)
        → range_sum rounds c (λ i. A (buf' i))
          ≡ range_sum left_a a (λ i. A (buf i)) + range_sum left_b b (λ i. A (buf i))
    pub outside : (i : ℕ) → (i < c) ⊎ (c + rounds ≤ i) → buf' i ≡ buf i

  moved-range :
      (A : T → ℕ) (buf : ℕ → T) (from to len start : ℕ)
      → ((i : ℕ) → start ≤ i → i < start + len → ¬ (i ≡ to))
      → range_sum len start (λ i. A (move_item buf from to i))
        ≡ range_sum len start (λ i. A (buf i))
  moved-range A buf from to len start h =
      range_sum_congr len start (λ i. A (move_item buf from to i)) (λ i. A (buf i))
        (λ i l r. ap A (moved-other buf from to i (h i l r)))

  take_a-Merged :
      (rounds c a left_a b left_b : ℕ) (buf buf' : ℕ → T)
      → a + suc left_a ≤ c
      → c + suc left_a ≡ b
      → Merged rounds (c + 1) (a + 1) left_a b left_b (move_item buf a c) buf'
      → Merged (suc rounds) c a (suc left_a) b left_b buf buf'
  unfolding range_sum
  take_a-Merged rounds c a left_a b left_b buf buf' le place h = record {
    sums = λ A.
        let head : A (buf' c) ≡ A (buf a) =
          ap A (h.outside c (inl (omega arith)) ∙ moved-at buf a c) in
        omega (
          arith,
          head,
          h.sums A,
          moved-range A buf a c left_a (a + 1) (λ i l r. omega arith),
          moved-range A buf a c left_b b (λ i l r. omega arith),
        );
    outside = λ i out.
        let out' : (i < c + 1) ⊎ (c + 1 + rounds ≤ i) = later c rounds i out in
        h.outside i out' ∙ moved-other buf a c i (apart c rounds i out);
  }

  take_b-Merged :
      (rounds c a left_a b left_b : ℕ) (buf buf' : ℕ → T)
      → a + left_a ≤ c
      → c + left_a ≡ b
      → Merged rounds (c + 1) a left_a (b + 1) left_b (move_item buf b c) buf'
      → Merged (suc rounds) c a left_a b (suc left_b) buf buf'
  unfolding range_sum
  take_b-Merged rounds c a left_a b left_b buf buf' le place h = record {
    sums = λ A.
        let head : A (buf' c) ≡ A (buf b) =
          ap A (h.outside c (inl (omega arith)) ∙ moved-at buf b c) in
        omega (
          arith,
          head,
          h.sums A,
          moved-range A buf b c left_a a (λ i l r. omega arith),
          moved-range A buf b c left_b (b + 1) (λ i l r. omega arith),
        );
    outside = λ i out.
        let out' : (i < c + 1) ⊎ (c + 1 + rounds ≤ i) = later c rounds i out in
        h.outside i out' ∙ moved-other buf b c i (apart c rounds i out);
  }

  step_a-Ends :
      (rounds c a left_a lim_a b left_b lim_b : ℕ) (buf : ℕ → T)
      → a + suc left_a ≤ c
      → c + suc left_a ≡ b
      → takes_a less buf a lim_a b lim_b ≡ true
      → Ends
          (Merged rounds (c + 1) (a + 1) left_a b left_b (move_item buf a c))
          (λ x. ⊥)
          (merge_loop less rounds (c + 1) (a + 1) lim_a b lim_b (move_item buf a c))
      → Ends
          (Merged (suc rounds) c a (suc left_a) b left_b buf)
          (λ x. ⊥)
          (merge_loop less (suc rounds) c a lim_a b lim_b buf)
  unfolding merge_loop
  step_a-Ends rounds c a left_a lim_a b left_b lim_b buf le place e rest =
      subst
        (λ f.
          Ends (Merged (suc rounds) c a (suc left_a) b left_b buf) (λ x. ⊥)
            (merge_loop less rounds (c + 1) (if f then a + 1 else a) lim_a (if f then b else b + 1)
              lim_b (if f then move_item buf a c else move_item buf b c)))
        (sym e)
        (Ends-map _ _ _ (merge_loop less rounds (c + 1) (a + 1) lim_a b lim_b (move_item buf a c))
          (λ buf' h. take_a-Merged rounds c a left_a b left_b buf buf' le place h) rest)

  step_b-Ends :
      (rounds c a left_a lim_a b left_b lim_b : ℕ) (buf : ℕ → T)
      → a + left_a ≤ c
      → c + left_a ≡ b
      → takes_a less buf a lim_a b lim_b ≡ false
      → Ends
          (Merged rounds (c + 1) a left_a (b + 1) left_b (move_item buf b c))
          (λ x. ⊥)
          (merge_loop less rounds (c + 1) a lim_a (b + 1) lim_b (move_item buf b c))
      → Ends
          (Merged (suc rounds) c a left_a b (suc left_b) buf)
          (λ x. ⊥)
          (merge_loop less (suc rounds) c a lim_a b lim_b buf)
  unfolding merge_loop
  step_b-Ends rounds c a left_a lim_a b left_b lim_b buf le place e rest =
      subst
        (λ f.
          Ends (Merged (suc rounds) c a left_a b (suc left_b) buf) (λ x. ⊥)
            (merge_loop less rounds (c + 1) (if f then a + 1 else a) lim_a (if f then b else b + 1)
              lim_b (if f then move_item buf a c else move_item buf b c)))
        (sym e)
        (Ends-map _ _ _ (merge_loop less rounds (c + 1) a lim_a (b + 1) lim_b (move_item buf b c))
          (λ buf' h. take_b-Merged rounds c a left_a b left_b buf buf' le place h) rest)

  done-Ends :
      (c a lim_a b lim_b : ℕ) (buf : ℕ → T)
      → a ≡ lim_a
      → b ≡ lim_b
      → Ends (Merged 0 c a 0 b 0 buf) (λ x. ⊥) (merge_loop less 0 c a lim_a b lim_b buf)
  unfolding merge_loop range_sum
  done-Ends c a lim_a b lim_b buf ea eb =
      let same : Merged 0 c a 0 b 0 buf buf = record { sums = λ A. refl; outside = λ i o. refl } in
      ground (arith, same)

  loop-Ends :
      (rounds c a left_a lim_a b left_b lim_b : ℕ) (buf : ℕ → T)
      → left_a + left_b ≡ rounds
      → a + left_a ≡ lim_a
      → b + left_b ≡ lim_b
      → lim_a ≤ c
      → c + left_a ≡ b
      → Ends
          (Merged rounds c a left_a b left_b buf)
          (λ x. ⊥)
          (merge_loop less rounds c a lim_a b lim_b buf)
  loop-Ends zero c a zero lim_a b zero lim_b buf eq ea eb le place =
      done-Ends c a lim_a b lim_b buf (omega arith) (omega arith)
  loop-Ends zero c a (suc left_a) lim_a b left_b lim_b buf eq ea eb le place = absurd (omega arith)
  loop-Ends zero c a zero lim_a b (suc left_b) lim_b buf eq ea eb le place = absurd (omega arith)
  loop-Ends (suc rounds) c a zero lim_a b zero lim_b buf eq ea eb le place = absurd (omega arith)
  loop-Ends (suc rounds) c a zero lim_a b (suc left_b) lim_b buf eq ea eb le place =
      let e : takes_a less buf a lim_a b lim_b ≡ false = ground arith in
      step_b-Ends rounds c a zero lim_a b left_b lim_b buf (omega arith) (omega arith) e (
        loop-Ends rounds (c + 1) a zero lim_a (b + 1) left_b lim_b (move_item buf b c) (omega arith)
          (omega arith) (omega arith) (omega arith) (omega arith))
  loop-Ends (suc rounds) c a (suc left_a) lim_a b zero lim_b buf eq ea eb le place =
      let e : takes_a less buf a lim_a b lim_b ≡ true = ground arith in
      step_a-Ends rounds c a left_a lim_a b zero lim_b buf (omega arith) (omega arith) e (
        loop-Ends rounds (c + 1) (a + 1) left_a lim_a b zero lim_b (move_item buf a c) (omega arith)
          (omega arith) (omega arith) (omega arith) (omega arith))
  loop-Ends (suc rounds) c a (suc left_a) lim_a b (suc left_b) lim_b buf eq ea eb le place =
      elim (Bool-cases (takes_a less buf a lim_a b lim_b))
        as (λ x.
          Ends (Merged (suc rounds) c a (suc left_a) b (suc left_b) buf) (λ x. ⊥)
            (merge_loop less (suc rounds) c a lim_a b lim_b buf)) [
              | inl e ↦
                  step_a-Ends rounds c a left_a lim_a b (suc left_b) lim_b buf (omega arith)
                    (omega arith) e
                    (loop-Ends rounds (c + 1) (a + 1) left_a lim_a b (suc left_b) lim_b
                      (move_item buf a c) (omega arith) (omega arith) (omega arith) (omega arith)
                      (omega arith))
              | inr e ↦
                  step_b-Ends rounds c a (suc left_a) lim_a b left_b lim_b buf (omega arith)
                    (omega arith) e
                    (loop-Ends rounds (c + 1) a (suc left_a) lim_a (b + 1) left_b lim_b
                      (move_item buf b c) (omega arith) (omega arith) (omega arith) (omega arith)
                      (omega arith))
            ]

  -- A merge in place ends without an error, whatever the comparator answers. The items of the two
  -- arrays are those of the result, each as often as before, and no place outside of the result
  -- is written.
  pub merge_sorted_arrays-Ends :
      (buf : ℕ → T) (start_a len_a start_b len_b : ℕ)
      → start_a + len_a + len_a ≡ start_b
      → Ends
          (Merged (len_a + len_b) (start_a + len_a) start_a len_a start_b len_b buf)
          (λ x. ⊥)
          (merge_sorted_arrays less buf start_a len_a start_b len_b (start_a + len_a))
  unfolding merge_sorted_arrays
  merge_sorted_arrays-Ends buf start_a len_a start_b len_b eq =
      loop-Ends (len_a + len_b) (start_a + len_a) start_a len_a (start_a + len_a) start_b len_b
        (start_b + len_b) buf refl refl refl (omega arith) eq
