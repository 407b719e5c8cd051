-- ===== src/Scheduler/Bits.antt =====
-- What scheduler_bitarray.py uses of the bit arrays of the package bitarray, and what it relies on.
use radical_utils.Prelude.{
  ℕ, suc, ◌+◌, ◌≤◌, ◌<◌, ◌≡◌, ◌≢◌, Bool, true, List, [], ◌∷◌, contains, leb, ltb, ◌&&◌,
  if◌then◌else◌,
}

-- `find` is the method `search`: the positions, this many at most, at which a run of set bits of the
-- given length starts, from a position on.
pub record BitArray : Type 1 where
  pub State : Type 0
  pub make : ℕ → State
  pub size : State → ℕ
  pub get : State → ℕ → Bool
  pub find : State → ℕ → ℕ → ℕ → List ℕ
  pub set_range : State → ℕ → ℕ → Bool → State
  pub set_list : State → List ℕ → Bool → State

module _ (bits : BitArray) where
  -- Whether a run of set bits starts at a position.
  abbrev pub IsRun : bits.State → ℕ → ℕ → Type 0
  IsRun b req h = (i : ℕ) → h ≤ i → i < h + req → bits.get b i ≡ true

  abbrev pub AllRuns : bits.State → ℕ → ℕ → List ℕ → Type 0
  AllRuns b req start [] = Unit {0}
  AllRuns b req start (h ∷ hs) = (start ≤ h) × IsRun b req h × AllRuns b req start hs

  pub record IsLawful : Type 0 where
    pub get_bounded : (b : bits.State) (i : ℕ) → bits.get b i ≡ true → i < bits.size b
    pub get-make : (n i : ℕ) → bits.get (bits.make n) i ≡ ltb i n
    pub size-make : (n : ℕ) → bits.size (bits.make n) ≡ n
    pub find-runs :
        (b : bits.State) (req limit start : ℕ) → AllRuns b req start (bits.find b req limit start)
    pub find_complete :
        (b : bits.State) (req limit start h : ℕ)
        → IsRun b req h
        → start ≤ h
        → h + req ≤ bits.size b
        → bits.find b req (suc limit) start ≢ []
    pub get-set_range :
        (b : bits.State) (lo stop i : ℕ) (v : Bool)
        → stop ≤ bits.size b
        → bits.get (bits.set_range b lo stop v) i
          ≡ (if leb lo i && ltb i stop then v else bits.get b i)
    pub size-set_range :
        (b : bits.State) (lo stop : ℕ) (v : Bool)
        → bits.size (bits.set_range b lo stop v) ≡ bits.size b
    pub get-set_list :
        (b : bits.State) (is : List ℕ) (v : Bool) (i : ℕ)
        → bits.get (bits.set_list b is v) i
          ≡ (if contains i is && ltb i (bits.size b) then v else bits.get b i)
    pub size-set_list :
        (b : bits.State) (is : List ℕ) (v : Bool) → bits.size (bits.set_list b is v) ≡ bits.size b
