-- ===== src/Storage/Objects.antt =====
-- The storage port as the in-memory implementation of object-storage.fake.ts has it: a map from
-- keys to bytes. A buffer and a drained stream are both the list of their bytes.
use synxor.Common.{
  ℕ, ◌≡◌, none, some, Option, List, if◌then◌else◌, drop, Dict, lookup, insert, erase, lookup-insert,
  lookup-erase, arith,
}
use synxor.Storage.Key.{ObjectKey, key_beq, object_key_eq}

abbrev pub Bytes : Type 0
Bytes = List ℕ

abbrev pub Objects : Type 0
Objects = Dict ObjectKey Bytes

unfoldable pub put_object : ObjectKey → Bytes → Objects → Objects
put_object k body o = insert k body o

-- `none` is the rejection with `ObjectNotFoundError`. An offset of 0 reads the whole object, as
-- `drop 0` does.
unfoldable pub get_object : ObjectKey → ℕ → Objects → Option Bytes
get_object k offset o = elim (lookup k o) [ none ↦ none | some buf ↦ some (drop offset buf) ]

-- Removing a key that is not there changes nothing.
unfoldable pub remove_object : ObjectKey → Objects → Objects
remove_object k o = erase k o

pub get_object-put_object :
    (k j : ObjectKey) (body : Bytes) (o : Objects)
    → get_object j 0 (put_object k body o) ≡ (if key_beq j k then some body else get_object j 0 o)
unfolding get_object put_object
get_object-put_object k j body o = ground (arith, lookup-insert k j body o)

pub get_object-remove_object :
    (k j : ObjectKey) (o : Objects)
    → get_object j 0 (remove_object k o) ≡ (if key_beq j k then none else get_object j 0 o)
unfolding get_object remove_object
get_object-remove_object k j o = ground (arith, lookup-erase k j o)
