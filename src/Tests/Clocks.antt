-- ===== src/Tests/Clocks.antt =====
-- Vector clocks and the outcome of a comparison.
use Prim.Native.Nat.{Ordering}
use tummycrypt.Prelude.{
  ◌≡◌, ◌≢◌, refl, ◌↔◌, ◌⊎◌, true, none, some, [], ◌∷◌, str, ◌==◌, str_le, arith,
}
use tummycrypt.Prelude.Dict.{lookup, insert, keys}
use tummycrypt.Conflict.{
  VectorClock, new, get, tick, merge, partial_cmp_vc, is_concurrent, conflict, ConflictInfo,
  resolve, keep_local, keep_remote, compare_clocks,
}
use tummycrypt.Conflict.Merge.{IsClock, get-tick, get-merge}
use tummycrypt.Conflict.Order.{
  Below, Describes, swap, partial_cmp_vc-Describes, partial_cmp_vc-swap, partial_cmp_vc-tick,
  merge-Below_iff,
}
use tummycrypt.Conflict.Outcome.{
  Explains, flip, compare_clocks-Explains, compare_clocks-flip, flip_info, resolve-flip_info,
}

program : Unit {0}
unfolding get tick merge partial_cmp_vc is_concurrent lookup insert keys ◌==◌ compare_clocks resolve
    str_le
program = tt

abbrev alpha : VectorClock
alpha = record { clocks = (str "a", 2) ∷ (str "b", 1) ∷ [] }

abbrev beta : VectorClock
beta = record { clocks = (str "b", 3) ∷ [] }

concurrent : (is_concurrent alpha beta ≡ true) × (partial_cmp_vc beta alpha ≡ none)
unfolding program
concurrent = (refl, refl)

merged : merge alpha beta ≡ record { clocks = (str "a", 2) ∷ (str "b", 3) ∷ [] }
unfolding program
merged = refl

ordered :
    (partial_cmp_vc (tick new (str "x")) new ≡ some Ordering.gt)
    × (partial_cmp_vc new (tick new (str "x")) ≡ some Ordering.lt)
    × (partial_cmp_vc new new ≡ some Ordering.eq)
unfolding program
ordered = (refl, refl, refl)

abbrev info : ConflictInfo
info = record {
  rel_path = str "test.txt";
  local_vclock = alpha;
  remote_vclock = beta;
  local_blake3 = str "aaa";
  remote_blake3 = str "bbb";
  local_device = str "alpha";
  remote_device = str "beta";
  detected_at = 0;
}

found :
    compare_clocks 0 alpha beta (str "aaa") (str "bbb") (str "test.txt") (str "alpha") (str "beta")
    ≡ conflict info
unfolding program
found = refl

get-tick_run : get (tick alpha (str "a")) (str "b") ≡ 1
unfolding program
get-tick_run = get-tick alpha (str "a") (str "b") (omega arith)

beta-IsClock : IsClock beta
unfolding program
beta-IsClock = (refl, tt)

get-merge_run : get (merge alpha beta) (str "b") ≡ 3
unfolding program
get-merge_run = get-merge alpha beta (str "b") beta-IsClock

partial_cmp_vc-tick_run : partial_cmp_vc (tick alpha (str "c")) alpha ≡ some Ordering.gt
unfolding program
partial_cmp_vc-tick_run = partial_cmp_vc-tick alpha (str "c") (omega arith)

merge-Below_iff_run : Below (merge alpha beta) alpha ↔ (Below alpha alpha × Below beta alpha)
merge-Below_iff_run = merge-Below_iff alpha beta alpha beta-IsClock

names_differ : str "alpha" ≢ str "beta"
names_differ e = cc e

resolve-flip_info_run :
    ((resolve info ≡ some keep_local) × (resolve (flip_info info) ≡ some keep_remote))
    ⊎ ((resolve info ≡ some keep_remote) × (resolve (flip_info info) ≡ some keep_local))
resolve-flip_info_run = resolve-flip_info info names_differ

partial_cmp_vc-Describes_example : Describes alpha beta (partial_cmp_vc alpha beta)
partial_cmp_vc-Describes_example = partial_cmp_vc-Describes alpha beta

partial_cmp_vc-swap_run : partial_cmp_vc beta alpha ≡ swap (partial_cmp_vc alpha beta)
partial_cmp_vc-swap_run = partial_cmp_vc-swap alpha beta

compare_clocks-Explains_run :
    Explains 0 alpha beta (str "aaa") (str "bbb") (str "test.txt") (str "alpha") (str "beta") (
      compare_clocks 0 alpha beta
        (str "aaa")
        (str "bbb")
        (str "test.txt")
        (str "alpha")
        (str "beta"))
compare_clocks-Explains_run =
    compare_clocks-Explains 0 alpha beta (str "aaa") (str "bbb") (str "test.txt") (str "alpha")
      (str "beta")

compare_clocks-flip_example :
    compare_clocks 0 beta alpha (str "bbb") (str "aaa") (str "test.txt") (str "beta") (str "alpha")
    ≡ flip (
        compare_clocks 0 alpha beta
          (str "aaa")
          (str "bbb")
          (str "test.txt")
          (str "alpha")
          (str "beta"))
compare_clocks-flip_example =
    compare_clocks-flip 0 alpha beta (str "aaa") (str "bbb") (str "test.txt") (str "alpha")
      (str "beta")
