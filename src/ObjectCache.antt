-- ===== src/ObjectCache.antt =====
-- src/radical/utils/object_cache.py: `ObjectCache`. Objects are numbers, compared by identity. The
-- timers that a removal starts are a list of ids; `fire` runs the first of them.
pub mod Counts
pub mod Tests
use radical_utils.Prelude.{
  ℕ, zero, suc, String, Bool, true, false, Option, none, some, List, [], ◌∷◌, ◌++◌, ◌-◌, ◌==◌,
  if◌then◌else◌,
}
use radical_utils.Prelude.Eq.{string_eq}
use radical_utils.Prelude.Dict.{Dict, lookup, insert, remove}

pub record Entry : Type 0 where
  pub cnt : ℕ
  pub obj : ℕ

pub record Cache : Type 0 where
  pub timeout : ℕ
  pub spaces : Dict String (Dict String Entry)
  pub timers : List String

pub data Error : Type 0 where
  creator_failed assertion missing_key : Error

pub data Reply : Type 0 where
  gave : ℕ → Reply
  found : Bool → Reply
  done : Reply
  raised : Error → Reply

abbrev pub default_ns : String
default_ns = "global"

-- `__init__`
unfoldable pub init : ℕ → Cache
init timeout = record { timeout = timeout; spaces = []; timers = [] }

-- The objects of a namespace, which `get_obj` makes if it is not there.
unfoldable pub space : Cache → String → Dict String Entry
space c ns = elim (lookup ns c.spaces) [ none ↦ [] | some objs ↦ objs ]

abbrev pub set_space : String → Dict String Entry → Cache → Cache
set_space ns objs c = record c { spaces = insert ns objs c.spaces }

-- `get_obj`; the creator gives an object, or raises.
unfoldable pub get_obj : String → Option ℕ → String → Cache → Cache × Reply
get_obj oid creator ns c =
    let objs = space c ns in
    elim (lookup oid objs) [
      | some e ↦ (set_space ns (insert oid (record e { cnt = suc e.cnt }) objs) c, gave e.obj)
      | none ↦ elim creator [
        | none ↦ (set_space ns objs c, raised creator_failed)
        | some obj ↦ (set_space ns (insert oid (record { cnt = 1; obj = obj }) objs) c, gave obj)
      ]
    ]

-- The entry with one user less, or no entry.
unfoldable pub drop_user : String → Entry → Dict String Entry → Dict String Entry
drop_user oid e objs =
    if (e.cnt - 1) == 0 then remove oid objs else insert oid (record e { cnt = e.cnt - 1 }) objs

-- `_rem_obj`
unfoldable pub rem_entry : String → String → Cache → Cache × Reply
rem_entry oid ns c = elim (lookup ns c.spaces) [
  | none ↦ (c, raised assertion)
  | some objs ↦ elim (lookup oid objs) [
    | none ↦ (c, raised missing_key)
    | some e ↦ (set_space ns (drop_user oid e objs) c, done)
  ]
]

-- The first id under which an object is kept.
unfoldable pub find_oid : ℕ → Dict String Entry → Option String
find_oid obj [] = none
find_oid obj ((oid, e) ∷ rest) = if obj == e.obj then some oid else find_oid obj rest

-- How `rem_obj` ends after the removal.
unfoldable pub after_removal : Cache × Reply → Cache × Reply
after_removal (c, raised e) = (c, raised e)
after_removal (c, done) = (c, found true)
after_removal (c, gave obj) = (c, found true)
after_removal (c, found b) = (c, found true)

-- The removal, at once or by a timer. Neither is told the namespace.
unfoldable pub remove_or_delay : String → Cache → Cache × Reply
remove_or_delay oid c = elim c.timeout [
  | zero ↦ after_removal (rem_entry oid default_ns c)
  | suc _ ↦ (record c { timers = c.timers ++ oid ∷ [] }, found true)
]

-- `rem_obj`
unfoldable pub rem_obj : ℕ → String → Cache → Cache × Reply
rem_obj obj ns c = elim (lookup ns c.spaces) [
  | none ↦ (c, found false)
  | some objs ↦ elim (find_oid obj objs) [
    | none ↦ (c, found false)
    | some oid ↦ remove_or_delay oid c
  ]
]

-- The next timer.
unfoldable pub fire : Cache → Cache × Reply
fire c = elim c.timers [
  | [] ↦ (c, done)
  | oid ∷ rest ↦ rem_entry oid default_ns (record c { timers = rest })
]
