-- ===== src/ObjectCache/Tests.antt =====
-- Runs of the object cache, and its theorems at them.
use radical_utils.Prelude.{◌≡◌, refl, String, true, none, some, [], ◌∷◌, arith}
use radical_utils.Prelude.Eq.{string_eq}
use radical_utils.Prelude.Dict.{lookup, insert, remove}
use radical_utils.ObjectCache.{
  Cache, found, default_ns, init, space, get_obj, drop_user, rem_entry, find_oid, after_removal,
  remove_or_delay, rem_obj, fire,
}
use radical_utils.ObjectCache.Counts.{rem_obj-get_obj}

program : Unit {0}
unfolding init space get_obj drop_user rem_entry find_oid after_removal remove_or_delay rem_obj fire
    lookup insert remove
program = tt

abbrev shared : Cache
shared = record {
  timeout = 0;
  spaces = ("global", ("log", record { cnt = 2; obj = 5 }) ∷ []) ∷ [];
  timers = [];
}

rem_obj-get_obj_example :
    let (c', reply) = rem_obj 5 default_ns (get_obj "log" none default_ns shared).0 in
    (reply ≡ found true)
    × ((k : String) → lookup k (space c' default_ns) ≡ lookup k (space shared default_ns))
unfolding program
rem_obj-get_obj_example =
    rem_obj-get_obj "log" 0 shared refl (record { cnt = 2; obj = 5 }) none refl (omega arith) refl

-- A cache that is only used with a namespace of its own.
abbrev private_cache : Cache
private_cache = record {
  timeout = 0;
  spaces = ("mine", ("log", record { cnt = 1; obj = 5 }) ∷ []) ∷ [];
  timers = [];
}

-- A delayed removal happens when its timer fires.
delayed :
    (fire (rem_obj 5 "global" (get_obj "log" (some 5) "global" (init 10)).0).0).0.spaces
    ≡ ("global", []) ∷ []
unfolding program
delayed = refl
