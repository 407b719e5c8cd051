-- ===== src/Scheduler/Align.antt =====
-- The search of `_align` of scheduler_bitarray.py for an allocation within a node.
use radical_utils.Prelude.{
  ℕ, zero, suc, ◌+◌, ◌-◌, ◌*◌, ◌≤◌, ◌<◌, ◌≡◌, refl, ◌∙◌, Bool, true, false, List, ◌∷◌, arith, inl,
  inr, ltb, leb, ◌==◌, Bool-cases, List-cases,
}
use radical_utils.Scheduler.Bits.{BitArray, IsRun, IsLawful}
use radical_utils.Scheduler.{
  alignment_error, failed, Settings, same_node, Scheduler, raised, searching, align_loop,
  align_fuel, align, take_block, place_block, alloc,
}

same_node_apart : (ppn pos req : ℕ) → 0 < ppn → 2 ≤ req → same_node ppn pos req ≡ false
unfolding same_node
same_node_apart ppn pos req p r =
    let less : (pos + 1) * ppn < (pos + req) * ppn = grind arith in ground arith

module _ (bits : BitArray) (lawful : IsLawful bits) (s : Settings) (b : bits.State) (req orig : ℕ)
    (wide : 2 ≤ req) (nodes : 0 < s.ppn) (sized : bits.size b ≡ s.size)
    (run : IsRun bits b req orig) where
  run_bounded : (h : ℕ) → IsRun bits b req h → h + req ≤ s.size
  run_bounded h r =
      let last = lawful.get_bounded b (h + req - 1) (r (h + req - 1) (omega arith) (omega arith)) in
      omega arith

  -- The first hit of a search.
  hit :
      (start loc : ℕ) (rest : List ℕ)
      → bits.find b req 1 start ≡ loc ∷ rest
      → (start ≤ loc) × (loc + req ≤ s.size)
  hit start loc rest e =
      let runs = rw e at (lawful.find-runs b req 1 start) in (runs.0, run_bounded loc runs.1)

  -- A turn of the loop that finds the next run.
  next_run :
      (fuel pos loc : ℕ) (rest : List ℕ) (rewound : Bool)
      → pos ≤ s.size
      → searching s.size orig pos rewound ≡ true
      → bits.find b req 1 (suc pos) ≡ loc ∷ rest
      → align_loop bits (suc fuel) s b req orig pos rewound
        ≡ align_loop bits fuel s b req orig loc rewound
  unfolding align_loop
  next_run fuel pos loc rest rewound inside on e =
      let apart = same_node_apart s.ppn loc req nodes wide in
      let no_wrap : ltb s.size pos ≡ false = ground arith in ground arith

  rewound_fails :
      (fuel pos : ℕ)
      → orig - pos < fuel
      → align_loop bits fuel s b req orig pos true ≡ failed alignment_error
  unfolding align_loop searching
  rewound_fails zero pos f = absurd (omega arith)
  rewound_fails (suc fuel) pos f = elim (Bool-cases (ltb pos orig)) [
    | inr done ↦ ground arith
    | inl more ↦ elim (List-cases (bits.find b req 1 (suc pos))) [
      | inl none_there ↦ absurd (
          lawful.find_complete b req 0 (suc pos) orig run (ground arith)
            (omega (arith, run_bounded orig run)) none_there)
      | inr (loc, rest, e) ↦
          let (further, fits) = hit (suc pos) loc rest e in
          let inside : pos ≤ s.size = ground (arith, run_bounded orig run) in
          next_run fuel pos loc rest true inside (ground arith) e
          ∙ rewound_fails fuel loc (ground arith)
    ]
  ]

  first_pass_fails :
      (fuel pos : ℕ)
      → (s.size + 1 - pos) + s.size + 2 < fuel
      → align_loop bits fuel s b req orig pos false ≡ failed alignment_error
  unfolding align_loop searching
  first_pass_fails zero pos f = absurd (omega arith)
  first_pass_fails (suc fuel) pos f = elim (Bool-cases (leb pos s.size)) [
    | inr done ↦ ground arith
    | inl more ↦ elim (List-cases (bits.find b req 1 (suc pos))) [
      | inl none_there ↦
          let no_wrap : ltb s.size pos ≡ false = ground arith in
          rw (more, no_wrap, none_there)
            (rewound_fails fuel 0 (omega (arith, run_bounded orig run)))
      | inr (loc, rest, e) ↦
          let (further, fits) = hit (suc pos) loc rest e in
          next_run fuel pos loc rest false (ground arith) (ground arith) e
          ∙ first_pass_fails fuel loc (ground arith)
    ]
  ]

  align_fails : s.flag_align ≡ true → req ≤ s.ppn → align bits s b req orig ≡ failed alignment_error
  unfolding align align_fuel
  align_fails flag fits =
      let apart = same_node_apart s.ppn orig req nodes wide in
      let narrow : ltb s.ppn req ≡ false = ground arith in
      let some_node : (s.ppn == 0) ≡ false = ground arith in
      let failure =
        first_pass_fails (s.size + s.size + 4) orig (omega (arith, run_bounded orig run)) in
      ground arith

module _ (bits : BitArray) (lawful : IsLawful bits) (req : ℕ) (s : Scheduler bits) (h : ℕ)
    (wide : 2 ≤ req) (narrow : req ≤ s.settings.ppn) (flag : s.settings.flag_align ≡ true)
    (sized : bits.size s.free ≡ s.settings.size) (run : IsRun bits s.free req h) where
  place_block_fails :
      (loc pos : ℕ)
      → IsRun bits s.free req loc
      → place_block bits req loc (record s { pos = pos })
        ≡ (record s { pos = pos }, raised alignment_error)
  unfolding place_block take_block
  place_block_fails loc pos r =
      rw (align_fails bits lawful s.settings s.free req loc wide (omega arith) sized r flag narrow)

  -- A request for two cores or more that would fit on a node, with alignment on, is never granted
  -- if a block of free cores is found for it: the search for an aligned place ends, and the call
  -- raises, since the code takes a node to be the quotient of a position without rounding it.
  pub alloc_unaligned : (alloc bits req s).1 ≡ raised alignment_error
  unfolding alloc
  alloc_unaligned = elim (List-cases (bits.find s.free req 1 s.pos)) [
    | inr (loc, rest, e) ↦
        let runs = rw e at (lawful.find-runs s.free req 1 s.pos) in
        rw (e, alloc, place_block_fails loc s.pos runs.1) refl
    | inl none_ahead ↦ elim (List-cases (bits.find s.free req 1 0)) [
      | inr (loc, rest, e) ↦
          let runs = rw e at (lawful.find-runs s.free req 1 0) in
          rw (none_ahead, alloc, e, place_block_fails loc 0 runs.1) refl
      | inl none_there ↦ absurd (
          lawful.find_complete s.free req 0 0 h run (omega arith)
            (rw sized
              (run_bounded bits lawful s.settings s.free req h wide (omega arith) sized run h run))
            none_there)
    ]
  ]
