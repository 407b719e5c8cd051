-- ===== src/PubSub/Frames.antt =====
-- The frames of pubsub.py: what a publisher sends, and what a subscriber reads of it.
use radical_utils.Prelude.{
  ◌≡◌, refl, true, false, Option, some, [], ◌∷◌, ◌++◌, ◌==◌, if◌then◌else◌, arith,
}
use radical_utils.PubSub.{Bytes, escape, split_once, message, frame, decode, same_bytes}

pub split_once-escape :
    (topic rest : Bytes) → split_once (escape topic ++ 32 ∷ rest) ≡ some (escape topic, rest)
unfolding split_once escape
split_once-escape [] rest = refl
split_once-escape (c ∷ cs) rest =
    let not_space : ((if c == 32 then 95 else c) == 32) ≡ false = ground arith in
    rw (not_space, split_once-escape cs rest) refl

pub escape_twice : (topic : Bytes) → escape (escape topic) ≡ escape topic
unfolding escape
escape_twice [] = refl
escape_twice (c ∷ cs) = ground (arith, escape_twice cs)

pub same_bytes_refl : (t : Bytes) → same_bytes t t ≡ true
unfolding same_bytes
same_bytes_refl [] = refl
same_bytes_refl (c ∷ cs) = ground (arith, same_bytes_refl cs)

pub same_bytes-eq : (t u : Bytes) → same_bytes t u ≡ true → t ≡ u
unfolding same_bytes
same_bytes-eq [] [] e = refl
same_bytes-eq [] (d ∷ ds) e = absurd (cc)
same_bytes-eq (c ∷ cs) [] e = absurd (cc)
same_bytes-eq (c ∷ cs) (d ∷ ds) e = ground (arith, same_bytes-eq cs ds)

module _ {M : Type 0} (pack : M → Bytes) (unpack : Bytes → Option M)
    (unpack-pack : (m : M) → unpack (pack m) ≡ some m) where
  -- What a publisher sends is read back, with the spaces of the topic turned into underscores.
  pub decode-frame :
      (topic : Bytes) (m : M) → decode unpack (frame pack topic m) ≡ message (escape topic) m
  unfolding decode frame
  decode-frame topic m = rw (frame, decode, split_once-escape topic (pack m), unpack-pack m) refl
