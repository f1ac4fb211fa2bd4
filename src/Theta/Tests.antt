-- ===== src/Theta/Tests.antt =====
-- Runs of the theta sketch and the union on small inputs, and their theorems at inputs that meet
-- their hypotheses.
use whylogs_datasketches.Base.{
  undefined, min, ◌||◌, Bool, ◌&&◌, Ends-weaken, ℕ, zero, suc, ◌^◌, ◌%◌, ◌≤◌, ◌<◌, ◌≡◌, ◌≢◌, refl,
  arith, true, false, ◌⊎◌, inl, inr, List, [], ◌∷◌, Outcome, ok, throws, Ends, ◌>>=◌, sum_below,
  invalid_argument,
}
use whylogs_datasketches.Theta.Table.{
  retained, retained_from, reset, resize_loop, Table, hash_and_screen, get_capacity,
  starting_sub_multiple, max_theta, find, insert, trim, rebuild, resize, find_in, find_loop,
  consolidate_non_empty, new,
}
use whylogs_datasketches.Theta.Probing.{Found, find_in-Ends}
use whylogs_datasketches.Theta.Entries.{with_key}
use whylogs_datasketches.Theta.Rehash.{list_sum, All}
use whylogs_datasketches.Theta.Consolidate.{Front, consolidate_non_empty-Front}
use whylogs_datasketches.Theta.Rebuild.{IsValid, total, Keeps, Rebuilt, rebuild-Ends, resize-Ends}
use whylogs_datasketches.Theta.Insert.{Inserts, insert-Ends, trim-Ends}
use whylogs_datasketches.Theta.Sketch.{
  update, Sketch, set_lg_k, starting_lg_size, build, trivial_extract_key, update_all, compact_of,
}
use whylogs_datasketches.Theta.Sketch.Stream.{
  elem, expected, Reflects, build-Reflects, update_all-Reflects, stream_holds,
}
use whylogs_datasketches.Theta.Union.{
  UnionState, update_loop, insert_or_merge, build_union, update_each, update_union, result_entries,
  new_union,
}
use whylogs_datasketches.Theta.Union.Update.{elem_key, Unites, update_union-Ends}
use whylogs_datasketches.Theta.Union.All.{
  in_some, Under, Fits, Gathers, update_each-Ends, new_union-Unites, union_holds,
}
use whylogs_datasketches.Theta.Union.Result.{wanted, result_entries-Ends}
use whylogs_datasketches.Theta.Intersection.{
  IntersectionState, new_intersection, update_intersection, with_entries, first_update, intersect,
  fill, table_for, lg_size_from_count, log2, log2_from, match_loop, no_entries,
}
use whylogs_datasketches.Theta.Intersection.Update.{
  IsExact, IsSound, Narrowed, update_intersection-Ends,
}
use whylogs_datasketches.Theta.Intersection.Size.{Sized, lg_size_from_count-Ends}
use whylogs_datasketches.Theta.Difference.{compute_difference}
use whylogs_datasketches.Theta.Difference.Compute.{remains, compute_difference-Ends}
use whylogs_datasketches.Theta.Reset.{reset-IsValid}

-- The value of code that does not throw.
abbrev value_or : {A : Type 0} → A → Outcome A → A
value_or d (ok a) = a
value_or d (throws e) = d

Ends-value_or :
    {A : Type 0} (P : A → Type 0) (d : A) (r : Outcome A) → Ends P (λ x. ⊥) r → P (value_or d r)
Ends-value_or P d (ok a) h = h
Ends-value_or P d (throws e) h = absurd h

-- 1 to n
abbrev down_from : ℕ → List ℕ
down_from zero = []
down_from (suc n) = suc n ∷ down_from n

abbrev fresh : Table ℕ
fresh = new true 6 5 0 max_theta max_theta 9001

fresh-Reflects : Reflects 5 max_theta (λ q. false) fresh
unfolding new build set_lg_k starting_lg_size starting_sub_multiple
fresh-Reflects = build-Reflects 5 0 max_theta 9001

-- A table of 64 slots with the 40 hashes 1 to 40.
abbrev forty : Table ℕ
forty = value_or fresh (update_all (down_from 40) fresh)

forty_entries : forty.num_entries ≡ 40
unfolding update_all update hash_and_screen new find find_in find_loop insert get_capacity
forty_entries = refl

forty-Reflects : Reflects 5 max_theta (λ q. elem q (down_from 40) || false) forty
forty-Reflects =
    Ends-value_or (Reflects 5 max_theta (λ q. elem q (down_from 40) || false)) fresh
      (update_all (down_from 40) fresh)
      (update_all-Reflects 5 max_theta (down_from 40) (λ q. false) fresh fresh-Reflects)

stream_holds_example :
    Ends
      (λ t.
        ((q : ℕ) → total (with_key q) t ≡ expected (λ h. elem h (down_from 40)) t.theta q)
        × (total (λ e. 1) t ≡ t.num_entries)
        × ((t.theta ≡ max_theta) ⊎ (2 ^ 5 ≤ t.num_entries))
        × (t.theta ≤ max_theta))
      (λ x. ⊥)
      (build 5 0 max_theta 9001 >>= update_all (down_from 40))
stream_holds_example = stream_holds 5 0 max_theta 9001 (down_from 40) (omega arith) (omega arith)

find_in-Ends_example : Ends (Found 6 forty.entries 50) (λ x. ⊥) (find_in forty.entries 6 50)
unfolding update_all update hash_and_screen new find find_in find_loop insert get_capacity
find_in-Ends_example = find_in-Ends 6 forty.entries 50 50 (omega arith) refl

insert-Ends_example : Ends (Inserts forty 50) (λ x. ⊥) (insert forty 50 50)
unfolding update_all update hash_and_screen new find find_in find_loop insert get_capacity sum_below
insert-Ends_example =
    insert-Ends forty 50 (50, false) forty-Reflects.valid (inr (inl (omega arith))) (omega arith)
      (omega arith) refl refl

trim-Ends_example : Ends (λ t. Keeps forty t × (t.num_entries ≤ 2 ^ 5)) (λ x. ⊥) (trim forty)
unfolding update_all update hash_and_screen new find find_in find_loop insert get_capacity
trim-Ends_example = trim-Ends forty forty-Reflects.valid

rebuild-Ends_example : Ends (Rebuilt forty) (λ x. ⊥) (rebuild forty)
unfolding update_all update hash_and_screen new find find_in find_loop insert get_capacity
rebuild-Ends_example =
    rebuild-Ends forty forty-Reflects.valid.loaded (omega arith) (omega arith) (omega arith)
      (omega arith)

consolidate-Front_example : Front 64 40 forty.entries (consolidate_non_empty forty.entries 64 40)
unfolding update_all update hash_and_screen new find find_in find_loop insert get_capacity
consolidate-Front_example =
    consolidate_non_empty-Front 64 40 forty.entries forty-Reflects.valid.loaded.counted

-- A table of 32 slots that may grow, with the hashes 1 to 10.
abbrev small : Table ℕ
small = new true 5 5 1 max_theta max_theta 9001

abbrev ten : Table ℕ
ten = value_or small (update_all (down_from 10) small)

small-Reflects : Reflects 5 max_theta (λ q. false) small
unfolding new build set_lg_k starting_lg_size starting_sub_multiple
small-Reflects = build-Reflects 5 1 max_theta 9001

ten-Reflects : Reflects 5 max_theta (λ q. elem q (down_from 10) || false) ten
ten-Reflects =
    Ends-value_or (Reflects 5 max_theta (λ q. elem q (down_from 10) || false)) small
      (update_all (down_from 10) small)
      (update_all-Reflects 5 max_theta (down_from 10) (λ q. false) small small-Reflects)

resize-Ends_example : Ends (Keeps ten) (λ x. ⊥) (resize ten)
unfolding update_all update hash_and_screen new find find_in find_loop insert get_capacity
resize-Ends_example =
    resize-Ends ten ten-Reflects.valid.loaded (omega arith) (omega arith) (omega arith)

-- Sketches of the hashes 7 and 2 and of 5 with the limit 6.
abbrev exact : Sketch ℕ
exact = compact_of false true 3 max_theta (2 ∷ 7 ∷ [])

abbrev sampled : Sketch ℕ
sampled = compact_of false true 3 6 (5 ∷ [])

abbrev seed_hash : ℕ → ℕ
seed_hash seed = seed % 5

abbrev first : ℕ → ℕ → ℕ
first a b = a

exact-Fits : Fits seed_hash 8 exact
unfolding compact_of
exact-Fits = (
  record {
    nonzero = (omega arith, (omega arith, tt));
    sorted = λ e. ((omega arith, tt), (tt, tt));
    none_if_empty = λ e. absurd (ground (arith, e));
  },
  inr refl,
)

sampled-Fits : Fits seed_hash 8 sampled
unfolding compact_of
sampled-Fits = (
  record {
    nonzero = (omega arith, tt);
    sorted = λ e. (tt, tt);
    none_if_empty = λ e. absurd (ground (arith, e));
  },
  inr refl,
)

union_holds_example :
    Ends
      (λ u.
        ((q : ℕ)
          → q < u.union_theta
          → total (with_key q) u.table ≡ wanted (in_some (exact ∷ sampled ∷ [])) u.union_theta q)
        × ((q : ℕ) → total (with_key q) u.table ≤ 1)
        × (u.union_theta ≤ max_theta)
        × All (Under u.union_theta) (exact ∷ sampled ∷ [])
        × (u.table.lg_nom_size ≡ 5))
      (λ x. ⊥)
      (build_union 5 0 max_theta 8 >>= update_each seed_hash first (exact ∷ sampled ∷ []))
union_holds_example =
    union_holds seed_hash first 5 0 max_theta 8 (exact ∷ sampled ∷ []) (λ a b. refl) (omega arith)
      (omega arith) (exact-Fits, (sampled-Fits, tt))

abbrev empty_union : UnionState ℕ
empty_union = new_union 6 5 0 max_theta max_theta 8

empty_union-Unites : Unites (λ q. false) empty_union
unfolding starting_lg_size starting_sub_multiple
empty_union-Unites = new_union-Unites 5 0 max_theta 8 (omega arith)

-- The union of the two sketches.
abbrev both : UnionState ℕ
both = value_or empty_union (update_each seed_hash first (exact ∷ sampled ∷ []) empty_union)

both-Unites : Unites (λ q. in_some (exact ∷ sampled ∷ []) q || false) both
unfolding new_union new
both-Unites =
    (Ends-value_or (Gathers (λ q. false) (exact ∷ sampled ∷ []) empty_union) empty_union
      (update_each seed_hash first (exact ∷ sampled ∷ []) empty_union)
      (update_each-Ends seed_hash first (exact ∷ sampled ∷ []) (λ q. false) empty_union
        (λ a b. refl) (exact-Fits, (sampled-Fits, tt)) empty_union-Unites)).unites

update_union-Ends_example :
    Ends
      (λ u.
        Unites (λ q. elem_key q sampled.entries || (in_some (exact ∷ sampled ∷ []) q || false)) u
        × (u.union_theta ≤ both.union_theta)
        × ((sampled.is_empty ≡ true) ⊎ (u.union_theta ≤ sampled.theta))
        × (u.table.seed ≡ both.table.seed)
        × (u.table.lg_nom_size ≡ both.table.lg_nom_size))
      (λ x.
        (x ≡ invalid_argument)
        × (sampled.is_empty ≡ false)
        × (sampled.seed_hash ≢ seed_hash both.table.seed))
      (update_union seed_hash first both sampled)
update_union-Ends_example =
    update_union-Ends seed_hash first (λ q. in_some (exact ∷ sampled ∷ []) q || false) both sampled
      (λ a b. refl) sampled-Fits.0 both-Unites

-- The result of this union has the theta 6, and retains the key 7.
seven_kept :
    ((value_or ([], 0) (result_entries both)).1 ≡ 6)
    × (elem_key 7 (value_or ([], 0) (result_entries both)).0 ≡ true)
unfolding update_each update_union compact_of new_union new update_loop insert_or_merge find find_in
    find_loop insert get_capacity sum_below result_entries retained retained_from
seven_kept = (refl, refl)

-- The union of the sketch without a limit.
abbrev single : UnionState ℕ
single = value_or empty_union (update_each seed_hash first (exact ∷ []) empty_union)

single-Unites : Unites (λ q. in_some (exact ∷ []) q || false) single
unfolding new_union new
single-Unites =
    (Ends-value_or (Gathers (λ q. false) (exact ∷ []) empty_union) empty_union
      (update_each seed_hash first (exact ∷ []) empty_union)
      (update_each-Ends seed_hash first (exact ∷ []) (λ q. false) empty_union (λ a b. refl)
        (exact-Fits, tt) empty_union-Unites)).unites

result_entries-Ends_example :
    Ends
      (λ r.
        ((q : ℕ) → list_sum (with_key q) r.0 ≡ wanted (λ h. in_some (exact ∷ []) h || false) r.1 q)
        × (r.1 ≤ single.union_theta)
        × (list_sum (λ e. 1) r.0 ≤ 2 ^ single.table.lg_nom_size)
        × ((r.1 ≡ single.union_theta) ⊎ (list_sum (λ e. 1) r.0 ≡ 2 ^ single.table.lg_nom_size)))
      (λ x. ⊥)
      (result_entries single)
unfolding update_each update_union compact_of new_union new update_loop insert_or_merge find find_in
    find_loop insert get_capacity sum_below
result_entries-Ends_example =
    result_entries-Ends (λ q. in_some (exact ∷ []) q || false) single single-Unites
      (inr (λ q past. ground (arith, past)))

-- An intersection before its first update.
abbrev new_meet : IntersectionState ℕ
new_meet = new_intersection 8

new_meet-IsSound : IsSound (λ q. true) new_meet
unfolding new_intersection new
new_meet-IsSound = inl (refl, refl, refl, λ q. refl)

exact-IsExact : IsExact exact
unfolding compact_of
exact-IsExact = record {
  sketch = exact-Fits.0;
  counted = refl;
  distinct = λ q. ground arith;
  low = ((omega arith, omega arith), ((omega arith, omega arith), tt));
  theta_le = omega arith;
}

-- A sketch with the hash 2 and the limit 6.
abbrev low_two : Sketch ℕ
low_two = compact_of false true 3 6 (2 ∷ [])

low_two-IsExact : IsExact low_two
unfolding compact_of
low_two-IsExact = record {
  sketch = record {
    nonzero = (omega arith, tt);
    sorted = λ e. (tt, tt);
    none_if_empty = λ e. absurd (ground (arith, e));
  };
  counted = refl;
  distinct = λ q. ground arith;
  low = ((omega arith, omega arith), tt);
  theta_le = omega arith;
}

abbrev exact_meet : IntersectionState ℕ
exact_meet = value_or new_meet (update_intersection seed_hash first new_meet exact)

abbrev in_exact : ℕ → Bool
in_exact q = true && elem_key q exact.entries

exact_meet-IsSound : IsSound in_exact exact_meet
unfolding new_intersection new compact_of
exact_meet-IsSound =
    let n : Narrowed (λ q. true) exact new_meet exact_meet =
      Ends-value_or (Narrowed (λ q. true) exact new_meet) new_meet
        (update_intersection seed_hash first new_meet exact)
        (Ends-weaken _ _ (λ x. ⊥) (update_intersection seed_hash first new_meet exact)
          (λ x b. absurd (b.2 refl))
          (update_intersection-Ends seed_hash first (λ q. true) new_meet exact (λ a b. refl)
            exact-IsExact (omega arith) new_meet-IsSound)) in
    inr (n.0, n.1)

update_intersection-Ends_example :
    Ends
      (Narrowed in_exact low_two exact_meet)
      (λ x.
        (x ≡ invalid_argument)
        × (low_two.is_empty ≡ false)
        × (low_two.seed_hash ≢ seed_hash exact_meet.table.seed))
      (update_intersection seed_hash first exact_meet low_two)
unfolding compact_of
update_intersection-Ends_example =
    update_intersection-Ends seed_hash first in_exact exact_meet low_two (λ a b. refl)
      low_two-IsExact (omega arith) exact_meet-IsSound

meet_of_two :
    (value_or exact_meet (update_intersection seed_hash first exact_meet low_two)).table.num_entries
    ≡ 1
unfolding update_intersection new_intersection new compact_of with_entries first_update fill find
    table_for lg_size_from_count log2 log2_from find_in find_loop insert get_capacity intersect
    match_loop no_entries resize resize_loop
meet_of_two = refl

lg_size_from_count-Ends_example :
    Ends
      (λ lg_size. Sized 31 lg_size × (31 < 2 ^ 30))
      (λ x. (x ≡ undefined) × (2 ^ 30 ≤ 31))
      (lg_size_from_count 31)
lg_size_from_count-Ends_example = lg_size_from_count-Ends 31 (omega arith)

compute_difference-Ends_example :
    Ends
      (λ r.
        ((q : ℕ) → list_sum (with_key q) r.entries ≡ remains exact low_two r.theta q)
        × (((exact.is_empty || low_two.is_empty) ≡ true) × (r.theta ≡ exact.theta)
            ⊎ (r.theta ≡ min exact.theta low_two.theta)))
      (λ x. (x ≡ invalid_argument) × ((exact.seed_hash ≢ 3) ⊎ (low_two.seed_hash ≢ 3)))
      (compute_difference 3 exact low_two true)
unfolding compact_of
compute_difference-Ends_example =
    compute_difference-Ends 3 exact low_two true exact-IsExact low_two-IsExact refl refl

reset-IsValid_example :
    IsValid (reset forty)
    × ((A : ℕ → ℕ) → total A (reset forty) ≡ 0)
    × ((reset forty).theta ≡ forty.starting_theta)
    × ((reset forty).is_empty ≡ true)
    × ((0 < (reset forty).rf) ⊎ ((reset forty).lg_nom_size < (reset forty).lg_cur_size))
unfolding update_all update hash_and_screen new find find_in find_loop insert get_capacity
reset-IsValid_example = reset-IsValid forty (omega arith)
