-- ===== src/Lease/Objects.antt =====
-- src/radical/utils/lease_manager.py: the lease objects, the pools, and the code that runs while the
-- manager's lock is held. An object is referred to by its uid, the number of `_LeaseObject._uid`;
-- the heap holds what the references point to, so that `pool['objects']`, `pool['freed']` and the
-- client share one object. Each locked section reads the clock once.
use radical_utils.Prelude.{
  ℕ, suc, ◌-◌, String, Bool, true, false, ◌&&◌, Option, none, some, List, [], ◌∷◌, ◌++◌, length,
  ltb, leb, ◌==◌, if◌then◌else◌,
}
use radical_utils.Prelude.Eq.{string_eq}
use radical_utils.Prelude.Dict.{Dict, lookup, insert}

-- `obj` is the handle of what the creator made.
pub record LeaseObject : Type 0 where
  pub used : Bool
  pub obj : ℕ
  pub t_created : ℕ
  pub t_leased : Option ℕ
  pub t_released : ℕ

pub record Pool : Type 0 where
  pub objects : List ℕ
  pub freed : Option ℕ
  pub event : Bool

pub record Limits : Type 0 where
  pub max_pool_size : ℕ
  pub max_pool_wait : ℕ
  pub max_obj_age : ℕ

pub record Manager : Type 0 where
  pub heap : ℕ → LeaseObject
  pub next_uid : ℕ
  pub pools : Dict String Pool
  pub limits : Limits
  pub open limits use *

pub data Error : Type 0 where
  already_leased not_leased no_pool creator_failed stop_waiting : Error

-- How a locked section ends: with a lease, an exception, a pool that is full, or with nothing yet.
pub data Reply : Type 0 where
  leased : ℕ → Reply
  raised : Error → Reply
  full again : Reply

pub data Result : Type 0 where
  ok : Manager → Result
  err : Error → Result

abbrev pub update : (ℕ → LeaseObject) → ℕ → LeaseObject → ℕ → LeaseObject
update heap uid o v = if v == uid then o else heap v

-- `LeaseManager.__init__`; the defaults of the module for what is not given.
unfoldable pub or_default : Option ℕ → ℕ → ℕ
or_default none d = d
or_default (some n) d = n

unfoldable pub limits_or_default : Option ℕ → Option ℕ → Option ℕ → Limits
unfolding or_default
limits_or_default size wait age = record {
  max_pool_size = or_default size 15;
  max_pool_wait = or_default wait 60;
  max_obj_age = or_default age 600;
}

unfoldable pub init : Option ℕ → Option ℕ → Option ℕ → (ℕ → LeaseObject) → Manager
init size wait age heap = record {
  heap = heap;
  next_uid = 0;
  pools = [];
  limits = limits_or_default size wait age;
}

-- `_LeaseObject.lease`
unfoldable pub lease_object : ℕ → ℕ → Manager → Manager × Reply
lease_object now uid m = if o.used then (m, raised already_leased) else (
  record m { heap = update m.heap uid (record o { used = true; t_leased = some now }) },
  leased uid,
)
  where
    o : LeaseObject
    o = m.heap uid

-- `_LeaseObject.release`
unfoldable pub release_object : ℕ → ℕ → Manager → Result
release_object now uid m =
    if o.used
    then ok (record m { heap = update m.heap uid (record o { used = false; t_released = now }) })
    else err not_leased
  where
    o : LeaseObject
    o = m.heap uid

abbrev pub new_pool : Pool
new_pool = record { objects = []; freed = none; event = false }

-- `_initialize_pool`
unfoldable pub initialize_pool : String → Manager → Manager
initialize_pool pid m = elim (lookup pid m.pools) [
  | none ↦ record m { pools = insert pid new_pool m.pools }
  | some _ ↦ m
]

abbrev pub set_pool : String → Pool → Manager → Manager
set_pool pid pool m = record m { pools = insert pid pool m.pools }

-- `_LeaseObject.__init__` and the lease that follows; the creator has returned `a`.
unfoldable pub new_object : ℕ → ℕ → LeaseObject
new_object now a = record {
  used = true;
  obj = a;
  t_created = now;
  t_leased = some now;
  t_released = now;
}

unfoldable pub add_object : String → Pool → ℕ → ℕ → Manager → Manager
unfolding new_object
add_object pid pool now a m = record m {
  heap = update m.heap m.next_uid (new_object now a);
  next_uid = suc m.next_uid;
  pools = insert pid (record pool { objects = pool.objects ++ m.next_uid ∷ [] }) m.pools;
}

-- The size cap of `_create_object`; 0 stands for no cap.
unfoldable pub at_cap : Manager → Pool → Bool
at_cap m pool = ltb 0 m.max_pool_size && leb m.max_pool_size (length pool.objects)

-- `_create_object`; `creator now` is what the creator gives at that time, `none` if it raises.
unfoldable pub create_object : String → (ℕ → Option ℕ) → ℕ → Manager → Manager × Reply
create_object pid creator now m = elim (lookup pid m.pools) [
  | none ↦ (m, raised no_pool)
  | some pool ↦ if at_cap m pool then (m, full) else elim (creator now) [
    | none ↦ (m, raised creator_failed)
    | some a ↦ (add_object pid pool now a m, leased m.next_uid)
  ]
]

-- Whether two references are identical.
unfoldable pub same : Option ℕ → ℕ → Bool
same none y = false
same (some x) y = x == y

-- `list.remove`, with `none` for its `ValueError`.
unfoldable pub list_remove : Option ℕ → List ℕ → Option (List ℕ)
unfolding same
list_remove x [] = none
list_remove x (y ∷ ys) =
    if same x y then some ys else elim (list_remove x ys) [ none ↦ none | some zs ↦ some (y ∷ zs) ]

-- `_remove_object`. It assigns `None` to its own argument before it removes it.
unfoldable pub remove_object : String → Option ℕ → Manager → Result
remove_object pid _ m = elim (lookup pid m.pools) [
  | none ↦ err no_pool
  | some pool ↦
      let obj : Option ℕ = none in
      elim (list_remove obj pool.objects) [
        | none ↦ ok m
        | some rest ↦ ok (set_pool pid (record pool { objects = rest }) m)
      ]
]

-- What the rest of the loop sees after `_remove_object`, which may raise.
unfoldable pub continue : (Manager → Manager × Reply) → Manager → Result → Manager × Reply
continue next m (ok m') = next m'
continue next m (err e) = (m, raised e)

-- The body of the loop of `lease`; `next` is the rest of the loop.
unfoldable pub visit : String → ℕ → ℕ → (Manager → Manager × Reply) → Manager → Manager × Reply
visit pid now uid next m =
    if (m.heap uid).used
    then next m
    else (if ltb m.max_obj_age (now - (m.heap uid).t_created)
        then continue next m (remove_object pid (some uid) m)
        else lease_object now uid m)

-- The loop of `lease`, over a copy of the pool's objects.
unfoldable pub scan : String → ℕ → List ℕ → Manager → Manager × Reply
scan pid now [] m = (m, again)
scan pid now (uid ∷ uids) m = visit pid now uid (scan pid now uids) m

-- The loop in the wait for a release, which does not look at the age.
unfoldable pub scan_free : ℕ → List ℕ → Manager → Manager × Reply
scan_free now [] m = (m, again)
scan_free now (uid ∷ uids) m =
    if (m.heap uid).used then scan_free now uids m else lease_object now uid m
