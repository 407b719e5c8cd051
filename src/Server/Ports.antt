-- ===== src/Server/Ports.antt =====
-- The URL of the server of server.py, the ports that it tries, and its start. Python's `int` and the
-- socket's `bind` are parameters.
use mathlib.Core.Path.{subst}
use radical_utils.Prelude.{
  ℕ, zero, suc, ◌+◌, ◌-◌, ◌≤◌, ◌<◌, ◌≡◌, ◌≢◌, refl, Option, none, some, List, [], ◌∷◌, ◌++◌,
  if◌then◌else◌, arith,
}
use radical_utils.Prelude.Chars.{Text, codes, split, split_max, replace, lstrip, same_text}
use radical_utils.Server.{unstarted, running, ended, died, Thread, Server}

-- `any`: the choice is left to zmq. A range without an end goes on.
pub data Ports : Type 0 where
  any : Ports
  range : ℕ → Option ℕ → Ports

pub data Invalid : Type 0 where
  not_three_parts no_number too_many_parts : Invalid

pub data Parsed (A : Type 0) : Type 0 where
  parsed : A → Parsed A
  invalid : Invalid → Parsed A

pub record Address : Type 0 where
  pub proto : Text
  pub iface : Text
  pub ports : Ports

module _ (int : Text → Option ℕ) where
  unfoldable pub single_port : Option ℕ → Parsed Ports
  single_port none = invalid no_number
  single_port (some n) = parsed (range n (some n))

  -- An end that is left out.
  unfoldable pub port_or : Option ℕ → Text → Parsed (Option ℕ)
  port_or default [] = parsed default
  port_or default (c ∷ cs) = elim (int (c ∷ cs)) [
    | none ↦ invalid no_number
    | some n ↦ parsed (some n)
  ]

  unfoldable pub make_range : Parsed (Option ℕ) → Parsed (Option ℕ) → Parsed Ports
  make_range (invalid e) stop = invalid e
  make_range (parsed start) (invalid e) = invalid e
  make_range (parsed none) (parsed stop) = parsed (range 1 stop)
  make_range (parsed (some start)) (parsed stop) = parsed (range start stop)

  unfoldable pub read_ports : List Text → Parsed Ports
  read_ports [] = parsed (range 1 none)
  read_ports (w ∷ []) = if same_text w (codes "*") then parsed any else single_port (int w)
  read_ports (w ∷ v ∷ []) = make_range (port_or (some 1) w) (port_or none v)
  read_ports (w ∷ v ∷ u ∷ more) = invalid too_many_parts

  unfoldable pub with_ports : Text → Text → Parsed Ports → Parsed Address
  with_ports proto iface (invalid e) = invalid e
  with_ports proto iface (parsed p) = parsed (record { proto = proto; iface = iface; ports = p })

  unfoldable pub read_parts : List Text → Parsed Address
  read_parts (proto ∷ iface ∷ ports ∷ []) =
      with_ports proto (lstrip b'/' iface) (read_ports (split b'-' (replace b'+' b'-' ports)))
  read_parts parts = invalid not_three_parts

  -- The URL of the constructor.
  unfoldable pub read_url : Text → Parsed Address
  read_url [] = read_parts (split_max b':' 2 (codes "tcp://*:10000-11000"))
  read_url (c ∷ cs) = read_parts (split_max b':' 2 (c ∷ cs))

pub data Port : Type 0 where
  star : Port
  port : ℕ → Port

pub data Binding : Type 0 where
  binds in_use refused : Binding

-- `unbound`: the loop over the ports ended; `no_next`: the iterator cannot count on from `*`.
pub data Bound : Type 0 where
  bound : Port → Bound
  unbound bind_error no_next : Bound

-- What is bound to: one URL of `_iterate_urls`.
unfoldable pub url_of : (ℕ → Text) → Address → Port → Text
url_of digits a star = a.proto ++ (codes "://" ++ (a.iface ++ codes ":*"))
url_of digits a (port n) = a.proto ++ (codes "://" ++ (a.iface ++ (codes ":" ++ digits n)))

unfoldable pub after_bind : Binding → Port → Bound → Bound
after_bind binds p next = bound p
after_bind in_use p next = next
after_bind refused p next = bind_error

module _ (bind : Port → Binding) where
  -- The ports of a range, `n` at most.
  unfoldable pub try_range : ℕ → ℕ → Bound
  try_range zero start = unbound
  try_range (suc n) start =
      let next = try_range n (suc start) in after_bind (bind (port start)) (port start) next

  -- `*` is tried twice.
  unfoldable pub try_any : ℕ → Bound
  try_any zero = no_next
  try_any (suc n) = let next = try_any n in after_bind (bind star) star next

  -- The loop of `_work` over `_iterate_ports`, where a range without an end tries `fuel` ports.
  unfoldable pub bind_ports : ℕ → Ports → Bound
  bind_ports fuel any = try_any 2
  bind_ports fuel (range start none) = try_range fuel start
  bind_ports fuel (range start (some stop)) = try_range (stop + 1 - start) start

  -- Where a search over ports ends up: at the first that is not in use.
  abbrev pub First : ℕ → ℕ → Bound → Type 0
  First start n (bound star) = ⊥
  First start n (bound (port p)) =
      (start ≤ p)
      × (p < start + n)
      × (bind (port p) ≡ binds)
      × ((q : ℕ) → start ≤ q → q < p → bind (port q) ≡ in_use)
  First start n unbound = (q : ℕ) → start ≤ q → q < start + n → bind (port q) ≡ in_use
  First start n bind_error =
      (p : ℕ) × (start ≤ p)
      × (p < start + n)
      × (bind (port p) ≡ refused)
      × ((q : ℕ) → start ≤ q → q < p → bind (port q) ≡ in_use)
  First start n no_next = ⊥

  First-here :
      (start n : ℕ) (b : Bound)
      → bind (port start) ≡ in_use
      → First (suc start) n b
      → First start (suc n) b
  First-here start n (bound star) used h = h
  First-here start n (bound (port p)) used (le, lt, free, below) =
      (omega arith, omega arith, free, λ q from to. ground (arith, used, below q))
  First-here start n unbound used all = λ q from to. ground (arith, used, all q)
  First-here start n bind_error used (p, le, lt, bad, below) =
      (p, omega arith, omega arith, bad, λ q from to. ground (arith, used, below q))
  First-here start n no_next used h = h

  First-after_bind :
      (start n : ℕ) (x : Binding) (next : Bound)
      → bind (port start) ≡ x
      → First (suc start) n next
      → First start (suc n) (after_bind x (port start) next)
  unfolding after_bind
  First-after_bind start n binds next e h =
      (omega arith, omega arith, e, λ q from to. absurd (omega arith))
  First-after_bind start n in_use next e h = First-here start n next e h
  First-after_bind start n refused next e h =
      (start, omega arith, omega arith, e, λ q from to. absurd (omega arith))

  First-try : (n start : ℕ) → First start n (try_range n start)
  unfolding try_range
  First-try zero start = λ q from to. absurd (omega arith)
  First-try (suc n) start =
      First-after_bind start n (bind (port start)) (try_range n (suc start)) refl
        (First-try n (suc start))

  -- Over a range of ports with an end, the server binds to the first port that is not in use;
  -- where that port is refused for another reason the exception goes on, and where all are in use
  -- the loop ends with nothing bound.
  pub bind_ports-First :
      (fuel start stop : ℕ)
      → First start (stop + 1 - start) (bind_ports fuel (range start (some stop)))
  unfolding bind_ports
  bind_ports-First fuel start stop = First-try (stop + 1 - start) start

  ends_early :
      (n start p : ℕ)
      → start ≤ p
      → p < start + n
      → bind (port p) ≢ in_use
      → try_range n start ≢ unbound
  ends_early n start p from to free e = free (subst (First start n) e (First-try n start) p from to)

  -- A range without an end is searched to an end if some port of it is not in use: as many ports as
  -- there are up to that one are enough.
  pub bind_ports_ends :
      (fuel start p : ℕ)
      → start ≤ p
      → p < start + fuel
      → bind (port p) ≢ in_use
      → (bind_ports fuel (range start none) ≢ unbound)
        × First start fuel (bind_ports fuel (range start none))
  unfolding bind_ports
  bind_ports_ends fuel start p from to free =
      (ends_early fuel start p from to free, First-try fuel start)

pub data Started : Type 0 where
  up hangs twice : Started

-- `start` waits for the thread to have bound, which one that an exception ended never has.
unfoldable pub begin : {S : Type 0} → Bound → Server S → Started × Server S
begin (bound p) s = (up, record s { thread = running })
begin unbound s = (up, record s { thread = running })
begin bind_error s = (hangs, record s { thread = died })
begin no_next s = (hangs, record s { thread = died })

unfoldable pub start_in : {S : Type 0} → Thread → Bound → Server S → Started × Server S
start_in unstarted b s = begin b s
start_in running b s = (twice, s)
start_in ended b s = (twice, s)
start_in died b s = (twice, s)

-- `start`, by what the thread's loop over the ports comes to.
unfoldable pub start : {S : Type 0} → Bound → Server S → Started × Server S
start b s = start_in s.thread b s
