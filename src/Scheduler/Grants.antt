-- ===== src/Scheduler/Grants.antt =====
-- What `alloc` and `dealloc` of scheduler_bitarray.py do to the bit array.
use radical_utils.Prelude.{
  ℕ, zero, suc, ◌+◌, ◌-◌, ◌≤◌, ◌≡◌, refl, Bool, true, false, not, List, [], ◌∷◌, arith, inl, inr,
  contains, ltb, ◌==◌, if◌then◌else◌, Bool-cases, List-cases,
}
use radical_utils.Scheduler.Bits.{BitArray, IsRun, AllRuns, IsLawful}
use radical_utils.Scheduler.{
  Moved, moved, failed, Settings, same_node, has_core, Scheduler, Result, granted, raised,
  searching, align_loop, align_fuel, align, take_cores, take_block, scatter, place_block, alloc,
}

module _ (bits : BitArray) (lawful : IsLawful bits) where
  -- What a call does: the cores that it grants were free, and are taken, and all else stays; or it
  -- raises, and the bit array stays.
  abbrev pub Effect : bits.State → Scheduler bits × Result bits → Type 0
  Effect b (s, granted a) =
      (1 ≤ a.req)
      × ((i : ℕ) → has_core a.req a.place i ≡ true → bits.get b i ≡ true)
      × ((i : ℕ) → bits.get s.free i ≡ (if has_core a.req a.place i then false else bits.get b i))
      × (bits.size s.free ≡ bits.size b)
  Effect b (s, raised e) = s.free ≡ b

  abbrev RunAt : bits.State → ℕ → Moved → Type 0
  RunAt b req (moved loc aligned) = IsRun bits b req loc
  RunAt b req (failed e) = Unit {0}

  turn-RunAt :
      (s : Settings) (b : bits.State) (req start : ℕ) (locs : List ℕ) (again : Moved)
      (later : ℕ → Moved)
      → AllRuns bits b req start locs
      → RunAt b req again
      → ((loc : ℕ) → RunAt b req (later loc))
      → RunAt b req (elim locs [
        | [] ↦ again
        | loc ∷ _ ↦ if same_node s.ppn loc req then moved loc true else later loc
      ])
  turn-RunAt s b req start [] again later r a k = a
  turn-RunAt s b req start (loc ∷ locs) again later r a k =
      elim (Bool-cases (same_node s.ppn loc req)) [ inl t ↦ rw t (r.1) | inr f ↦ rw f (k loc) ]

  align_loop-RunAt :
      (fuel : ℕ) (s : Settings) (b : bits.State) (req orig pos : ℕ) (rewound : Bool)
      → RunAt b req (align_loop bits fuel s b req orig pos rewound)
  unfolding align_loop
  align_loop-RunAt zero s b req orig pos rewound = tt
  align_loop-RunAt (suc fuel) s b req orig pos rewound =
      let turn =
        turn-RunAt s b req _ _ _
          (λ loc. align_loop bits fuel s b req orig loc (if ltb s.size pos then true else rewound))
          (lawful.find-runs b req 1 (suc (if ltb s.size pos then 0 else pos)))
          (align_loop-RunAt fuel s b req orig 0 true)
          (λ loc.
            align_loop-RunAt fuel s b req orig loc (if ltb s.size pos then true else rewound)) in
      elim (Bool-cases (searching s.size orig pos rewound)) [
        | inr done ↦ rw done tt
        | inl on ↦ rw on turn
      ]

  align-RunAt :
      (s : Settings) (b : bits.State) (req loc : ℕ)
      → IsRun bits b req loc
      → RunAt b req (align bits s b req loc)
  unfolding align
  align-RunAt s b req loc r = elim (Bool-cases (not s.flag_align)) [
    | inl t ↦ rw t r
    | inr f ↦ elim (Bool-cases (ltb s.ppn req)) [
      | inl t ↦ rw (f, t) r
      | inr g ↦ elim (Bool-cases (s.ppn == 0)) [
        | inl t ↦ rw (f, g, t) tt
        | inr h ↦ elim (Bool-cases (same_node s.ppn loc req)) [
          | inl t ↦ rw (f, g, h, t) r
          | inr k ↦ rw (f, g, h, k) (align_loop-RunAt (align_fuel s.size) s b req loc loc false)
        ]
      ]
    ]
  ]

  take_block-Effect :
      (req : ℕ) (m : Moved) (s : Scheduler bits)
      → 1 ≤ req
      → RunAt s.free req m
      → Effect s.free (take_block bits req m s)
  unfolding take_block has_core
  take_block-Effect req (failed e) s pos r = refl
  take_block-Effect req (moved loc aligned) s pos r =
      let last =
        lawful.get_bounded s.free (loc + req - 1) (r (loc + req - 1) (omega arith) (omega arith)) in
      (
        pos,
        λ i h. r i (ground arith) (ground arith),
        λ i. lawful.get-set_range s.free loc (loc + req) i false (omega arith),
        lawful.size-set_range s.free loc (loc + req) false,
      )

  contains-run :
      (b : bits.State) (start i : ℕ) (locs : List ℕ)
      → AllRuns bits b 1 start locs
      → contains i locs ≡ true
      → bits.get b i ≡ true
  unfolding contains
  contains-run b start i [] r h = absurd (cc)
  contains-run b start i (loc ∷ locs) r h = elim (Bool-cases (i == loc)) [
    | inl t ↦ r.1 i (ground arith) (ground arith)
    | inr f ↦ contains-run b start i locs r.2 (ground arith)
  ]

  set_list_runs :
      (b : bits.State) (start i : ℕ) (locs : List ℕ)
      → AllRuns bits b 1 start locs
      → bits.get (bits.set_list b locs false) i ≡ (if contains i locs then false else bits.get b i)
  set_list_runs b start i locs r = elim (Bool-cases (contains i locs)) [
    | inl t ↦
        let inside = lawful.get_bounded b i (contains-run b start i locs r t) in
        ground (arith, lawful.get-set_list b locs false i)
    | inr f ↦ ground (arith, lawful.get-set_list b locs false i)
  ]

  take_cores-Effect :
      (req start loc : ℕ) (locs : List ℕ) (s : Scheduler bits)
      → 1 ≤ req
      → AllRuns bits s.free 1 start (loc ∷ locs)
      → Effect s.free (take_cores bits req loc locs s)
  unfolding take_cores has_core
  take_cores-Effect req start loc locs s pos r = (
    pos,
    λ i h. contains-run s.free start i (loc ∷ locs) r h,
    λ i. set_list_runs s.free start i (loc ∷ locs) r,
    lawful.size-set_list s.free (loc ∷ locs) false,
  )

  scatter-Effect :
      (req orig : ℕ) (s : Scheduler bits) → 1 ≤ req → Effect s.free (scatter bits req orig s)
  unfolding scatter
  scatter-Effect req orig s pos = elim (Bool-cases s.settings.flag_scatter) [
    | inr f ↦ rw (f, scatter) refl
    | inl t ↦ elim (List-cases (bits.find s.free 1 req orig)) [
      | inr (loc, locs, e) ↦
          rw (t, scatter, e)
            (take_cores-Effect req orig loc locs s pos
              (rw e at (lawful.find-runs s.free 1 req orig)))
      | inl none_ahead ↦ elim (List-cases (bits.find s.free 1 req 0)) [
        | inr (loc, locs, e) ↦
            rw (t, scatter, none_ahead, e)
              (take_cores-Effect req 0 loc locs s pos (rw e at (lawful.find-runs s.free 1 req 0)))
        | inl none_there ↦ rw (t, scatter, none_ahead, none_there) refl
      ]
    ]
  ]

  place_block-Effect :
      (req start loc : ℕ) (rest : List ℕ) (s : Scheduler bits)
      → 1 ≤ req
      → AllRuns bits s.free req start (loc ∷ rest)
      → Effect s.free (place_block bits req loc s)
  unfolding place_block
  place_block-Effect req start loc rest s pos r =
      take_block-Effect req (align bits s.settings s.free req loc) s pos
        (align-RunAt s.settings s.free req loc r.1)

  pub alloc-Effect : (req : ℕ) (s : Scheduler bits) → 1 ≤ req → Effect s.free (alloc bits req s)
  unfolding alloc
  alloc-Effect req s pos = elim (List-cases (bits.find s.free req 1 s.pos)) [
    | inr (loc, rest, e) ↦
        rw (e, alloc)
          (place_block-Effect req s.pos loc rest s pos
            (rw e at (lawful.find-runs s.free req 1 s.pos)))
    | inl none_ahead ↦ elim (List-cases (bits.find s.free req 1 0)) [
      | inr (loc, rest, e) ↦
          rw (none_ahead, alloc, e)
            (place_block-Effect req 0 loc rest (record s { pos = 0 }) pos
              (rw e at (lawful.find-runs s.free req 1 0)))
      | inl none_there ↦
          rw (none_ahead, alloc, none_there) (scatter-Effect req s.pos (record s { pos = 0 }) pos)
    ]
  ]
