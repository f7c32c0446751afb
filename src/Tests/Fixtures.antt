-- ===== src/Tests/Fixtures.antt =====
-- Concrete stores, hashes, codecs and ciphers for the tests.
use tummycrypt.Prelude.{
  refl, inl, Bool, false, none, some, List, [], ◌∷◌, Str, eq_iff, eq_refl, if◌then◌else◌, arith,
}
use tummycrypt.Prelude.Dict.{Dict, lookup, insert, lookup-insert, has}
use tummycrypt.Fallible.{ok, err, downloading_chunk, uploading_chunk}
use tummycrypt.Remote
use tummycrypt.Remote.{Operator, IsReliable}

-- A store in memory that answers every request.
abbrev pub memory : Operator
memory = record {
  State = Dict Str;
  exists = λ k s. (ok (has (lookup k s)), s);
  read = λ k s. (elim (lookup k s) [ some v ↦ ok v | none ↦ err downloading_chunk ], s);
  write = λ k v s. (ok tt, insert k v s);
}

unfoldable pub memory-IsLawful : Remote.IsLawful memory
memory-IsLawful = record {
  object = λ s k. lookup k s;
  object-exists = λ s k j. refl;
  exists-ok = λ s k b e. cc e;
  object-read = λ s k j. refl;
  read-ok = λ s k v e. ground arith;
  object-write_ne = λ s k v j apart. ground (arith, lookup-insert k j v s, eq_iff k j);
  object-write_self = λ s k v. inl (ground (arith, lookup-insert k k v s, eq_refl k));
  object-write_ok = λ s k v e. ground (arith, lookup-insert k k v s, eq_refl k);
}

pub memory-IsReliable : IsReliable memory memory-IsLawful
unfolding memory-IsLawful
memory-IsReliable = record {
  exists-answers = λ s k. refl;
  read-answers = λ s k v e. ground arith;
  write-answers = λ s k v. refl;
}

-- A store that loses requests: the list says which ones fail, and a write that fails is lost.
abbrev pub Flaky : Type 0
Flaky = record { objects : Dict Str; faults : List Bool }

abbrev pub faulty : Flaky → Bool
faulty s = elim s.faults [ [] ↦ false | b ∷ _ ↦ b ]

abbrev pub later : Flaky → Flaky
later s = record { objects = s.objects; faults = elim s.faults [ [] ↦ [] | _ ∷ r ↦ r ] }

abbrev pub flaky : Operator
flaky = record {
  State = Flaky;
  exists =
      λ k s. (if faulty s then err downloading_chunk else ok (has (lookup k s.objects)), later s);
  read = λ k s. (
    if faulty s
        then err downloading_chunk
        else elim (lookup k s.objects) [ some v ↦ ok v | none ↦ err downloading_chunk ],
    later s,
  );
  write = λ k v s.
      if faulty s
      then (err uploading_chunk, later s)
      else (ok tt, record { objects = insert k v s.objects; faults = (later s).faults });
}

unfoldable pub flaky-IsLawful : Remote.IsLawful flaky
flaky-IsLawful = record {
  object = λ s k. lookup k s.objects;
  object-exists = λ s k j. refl;
  exists-ok = λ s k b e. ground arith;
  object-read = λ s k j. refl;
  read-ok = λ s k v e. ground arith;
  object-write_ne = λ s k v j apart. ground (arith, lookup-insert k j v s.objects, eq_iff k j);
  object-write_self = λ s k v. ground (arith, lookup-insert k k v s.objects, eq_refl k);
  object-write_ok = λ s k v e. ground (arith, lookup-insert k k v s.objects, eq_refl k);
}
