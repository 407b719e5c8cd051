-- ===== src/Scheduler.antt =====
-- src/radical/utils/scheduler/scheduler_bitarray.py: `BitarrayScheduler`. The bit array is a parameter: a
-- pattern of `req` set bits is given by its length, and a range by its first position and the one
-- after its last. A quotient of positions is compared exactly.
pub mod Bits
pub mod Align
pub mod Grants
pub mod History
pub mod Stats
pub mod Stretches
pub mod Tests
use radical_utils.Prelude.{
  ℕ, zero, suc, ◌+◌, ◌-◌, ◌*◌, Bool, true, false, not, ◌&&◌, ◌||◌, Option, none, some, List, [],
  ◌∷◌, contains, ltb, leb, ◌==◌, if◌then◌else◌,
}
use Bits.{BitArray}

-- The cores of an allocation: a block, or a list.
pub data Place : Type 0 where
  block : ℕ → Place
  cores : List ℕ → Place

pub record Allocation : Type 0 where
  pub req : ℕ
  pub place : Place
  pub scattered : Bool
  pub aligned : Bool

pub data Error : Type 0 where
  no_cores out_of_cores alignment_error zero_division out_of_fuel : Error

-- Where an allocation is moved to, and whether it is aligned then.
pub data Moved : Type 0 where
  moved : ℕ → Bool → Moved
  failed : Error → Moved

pub record Settings : Type 0 where
  pub size : ℕ
  pub ppn : ℕ
  pub flag_align : Bool
  pub flag_scatter : Bool

unfoldable pub or_else : {A : Type 0} → Option A → A → A
or_else none d = d
or_else (some x) d = x

-- Whether an allocation starts and ends on the same node. The code divides both positions by `ppn`
-- without rounding; one is added to both here.
unfoldable pub same_node : ℕ → ℕ → ℕ → Bool
same_node ppn pos req = (pos + 1) * ppn == (pos + req) * ppn

-- Whether an allocation has this core.
unfoldable pub has_core : ℕ → Place → ℕ → Bool
has_core req (block loc) i = leb loc i && ltb i (loc + req)
has_core req (cores loc) i = contains i loc

unfoldable pub last_core : ℕ → List ℕ → ℕ
last_core x [] = x
last_core x (y ∷ ys) = last_core y ys

-- The condition of the loop of `_align`.
unfoldable pub searching : ℕ → ℕ → ℕ → Bool → Bool
searching size orig pos rewound = leb pos size && not rewound || ltb pos orig && rewound

-- Turns that are enough for the loop.
unfoldable pub align_fuel : ℕ → ℕ
align_fuel size = size + size + 4

module _ (bits : BitArray) where
  pub record Scheduler : Type 0 where
    pub free : bits.State
    pub pos : ℕ
    pub settings : Settings

  pub data Result : Type 0 where
    granted : Allocation → Result
    raised : Error → Result

  -- `__init__`
  unfoldable pub init : Option ℕ → Option ℕ → Option Bool → Option Bool → Option Scheduler
  init none ppn align scatter = none
  init (some size) ppn align scatter = some (record {
    free = bits.make size;
    pos = 0;
    settings = record {
      size = size;
      ppn = or_else ppn size;
      flag_align = or_else align true;
      flag_scatter = or_else scatter true;
    };
  })

  -- The loop of `_align`; `orig` is where the allocation was found first.
  unfoldable pub align_loop : ℕ → Settings → bits.State → ℕ → ℕ → ℕ → Bool → Moved
  align_loop zero s b req orig pos rewound = failed out_of_fuel
  align_loop (suc fuel) s b req orig pos rewound =
      let again = align_loop fuel s b req orig 0 true in
      let from = if ltb s.size pos then 0 else pos in
      let rewound' = if ltb s.size pos then true else rewound in
      if searching s.size orig pos rewound
      then elim (bits.find b req 1 (suc from)) [
        | [] ↦ again
        | loc ∷ _ ↦
            if same_node s.ppn loc req
            then moved loc true
            else align_loop fuel s b req orig loc rewound'
      ]
      else failed alignment_error

  -- `_align`
  unfoldable pub align : Settings → bits.State → ℕ → ℕ → Moved
  align s b req loc =
      if not s.flag_align
      then moved loc false
      else if ltb s.ppn req
      then moved loc false
      else if s.ppn == 0
      then failed zero_division
      else if same_node s.ppn loc req
      then moved loc false
      else align_loop (align_fuel s.size) s b req loc loc false

  -- The end of `alloc` for a list of cores.
  unfoldable pub take_cores : ℕ → ℕ → List ℕ → Scheduler → Scheduler × Result
  take_cores req loc locs s = (
    record s { free = bits.set_list s.free (loc ∷ locs) false; pos = suc (last_core loc locs) },
    granted (record { req = req; place = cores (loc ∷ locs); scattered = true; aligned = false }),
  )

  -- The end of `alloc` for a block. An exception leaves the position as it is.
  unfoldable pub take_block : ℕ → Moved → Scheduler → Scheduler × Result
  take_block req (failed e) s = (s, raised e)
  take_block req (moved loc aligned) s = (
    record s { free = bits.set_range s.free loc (loc + req) false; pos = loc + req },
    granted (record { req = req; place = block loc; scattered = false; aligned = aligned }),
  )

  -- `alloc`, once no block was found. The search for single cores starts at the old position.
  unfoldable pub scatter : ℕ → ℕ → Scheduler → Scheduler × Result
  scatter req orig s =
      if s.settings.flag_scatter
      then elim (bits.find s.free 1 req orig) [
        | loc ∷ locs ↦ take_cores req loc locs s
        | [] ↦ elim (bits.find s.free 1 req 0) [
          | loc ∷ locs ↦ take_cores req loc locs s
          | [] ↦ (record s { pos = 0 }, raised out_of_cores)
        ]
      ]
      else (record s { pos = 0 }, raised out_of_cores)

  -- The block that was found, aligned if the flag says so.
  unfoldable pub place_block : ℕ → ℕ → Scheduler → Scheduler × Result
  place_block req loc s = take_block req (align s.settings s.free req loc) s

  -- `alloc`
  unfoldable pub alloc : ℕ → Scheduler → Scheduler × Result
  alloc req s = elim (bits.find s.free req 1 s.pos) [
    | loc ∷ _ ↦ place_block req loc s
    | [] ↦ elim (bits.find s.free req 1 0) [
      | loc ∷ _ ↦ place_block req loc (record s { pos = 0 })
      | [] ↦ scatter req s.pos (record s { pos = 0 })
    ]
  ]

  -- `dealloc`
  unfoldable pub dealloc : Allocation → Scheduler → Scheduler
  dealloc a s = elim a.place [
    | cores loc ↦ record s { free = bits.set_list s.free loc true }
    | block loc ↦ record s { free = bits.set_range s.free loc (loc + a.req) true }
  ]
