-- ===== src/Ec/Rebuild.antt =====
-- internal/ec/ec.go: Reconstruct on what is left of an encoded chunk.
use kavo.Base.{
  ℕ, suc, ◌≤◌, ◌≡◌, refl, ap, ◌∙◌, true, false, inl, inr, Option, none, some, List, [], ◌∷◌, map,
  arith, ltb, ◌==◌, if◌then◌else◌, Bool-cases, length, Bytes, ok, >>=-eq-ok,
}
use kavo.Ec.{
  Scheme, shards, valid, Codec, present, Survives, end, lost, held, Codes, encoder, encode,
  reconstruct,
}

length-Survives :
    {slots : List (Option Bytes)} {code : List Bytes}
    → Survives slots code
    → length slots ≡ length code
length-Survives end = refl
length-Survives (lost s r) = ap suc (length-Survives r)
length-Survives (held s r) = ap suc (length-Survives r)

present-le : (slots : List (Option Bytes)) → present slots ≤ length slots
unfolding present
present-le [] = omega arith
present-le (none ∷ slots) = omega (arith, present-le slots)
present-le (some s ∷ slots) = omega (arith, present-le slots)

-- With every slot held, the slots are the shards.
all_present :
    {slots : List (Option Bytes)} {code : List Bytes}
    → Survives slots code
    → length slots ≤ present slots
    → slots ≡ map some code
unfolding present
all_present end h = refl
all_present (lost {slots = slots} s r) h = absurd (omega (arith, present-le slots))
all_present (held s r) h = ap (◌∷◌ (some s)) (all_present r (omega arith))

encoder-valid :
    (codec : Codec) (s : Scheme) {u : Unit {0}} → encoder codec s ≡ ok u → valid s ≡ true
unfolding encoder
encoder-valid codec s h = ground arith

encoder_accepts :
    (codec : Codec) (s : Scheme) → Codes codec → valid s ≡ true → encoder codec s ≡ ok tt
unfolding encoder
encoder_accepts codec s c h = rw h (c.accepts s h)

-- What an encoding that succeeded has done.
record Encoded (codec : Codec) (s : Scheme) (chunk : Bytes) (code : List Bytes) : Type 0 where
  is_valid : valid s ≡ true
  parts : List Bytes
  was_split : codec.split s chunk ≡ ok parts
  was_encoded : codec.encode s parts ≡ ok code

encode-Encoded :
    (codec : Codec) (s : Scheme) (chunk : Bytes) (code : List Bytes)
    → encode codec s chunk ≡ ok code
    → Encoded codec s chunk code
unfolding encode
encode-Encoded codec s chunk code e =
    let (u, made, rest) = >>=-eq-ok (encoder codec s) _ e in
    let (parts, was_split, was_encoded) = >>=-eq-ok (codec.split s chunk) (codec.encode s) rest in
    record {
      is_valid = encoder-valid codec s made;
      parts = parts;
      was_split = was_split;
      was_encoded = was_encoded;
    }

-- The slots after the codec has filled them, or as they were if nothing is missing.
full_slots :
    (codec : Codec) (s : Scheme) (chunk : Bytes) (code : List Bytes) (slots : List (Option Bytes))
    → Codes codec
    → Encoded codec s chunk code
    → Survives slots code
    → s.data_shards ≤ present slots
    → (if ltb (present slots) (shards s) then codec.rebuild s slots else ok slots)
      ≡ ok (map some code)
full_slots codec s chunk code slots c e r h = elim (Bool-cases (ltb (present slots) (shards s))) [
  | inl missing ↦ rw missing (c.fills s chunk e.parts code slots e.was_split e.was_encoded r h)
  | inr whole ↦ rw whole (
      ap ok (
        all_present r (
          ground
            (arith, length-Survives r, c.counts s chunk e.parts code e.was_split e.was_encoded))))
]

reconstruct_steps :
    (codec : Codec) (s : Scheme) (slots full : List (Option Bytes)) (chunk : Bytes) (size : ℕ)
    → length slots ≡ shards s
    → s.data_shards ≤ present slots
    → encoder codec s ≡ ok tt
    → (if ltb (present slots) (shards s) then codec.rebuild s slots else ok slots) ≡ ok full
    → codec.join s full size ≡ ok chunk
    → reconstruct codec s slots size ≡ ok (chunk, full)
unfolding reconstruct
reconstruct_steps codec s slots full chunk size e h made filled joined =
    let same_length : (length slots == shards s) ≡ true = ground arith in
    let enough : ltb (present slots) s.data_shards ≡ false = ground arith in
    rw (same_length, enough, made, filled, joined)

-- If the codec does what it promises, then whichever shards of an encoded chunk survive, as long as
-- they are no fewer than the data shards, Reconstruct returns the chunk and all of its shards.
pub reconstruct-encode :
    (codec : Codec) (s : Scheme) (chunk : Bytes) (code : List Bytes) (slots : List (Option Bytes))
    → Codes codec
    → encode codec s chunk ≡ ok code
    → Survives slots code
    → s.data_shards ≤ present slots
    → reconstruct codec s slots (length chunk) ≡ ok (chunk, map some code)
reconstruct-encode codec s chunk code slots c e r h =
    let was = encode-Encoded codec s chunk code e in
    reconstruct_steps codec s slots (map some code) chunk (length chunk)
      (length-Survives r ∙ c.counts s chunk was.parts code was.was_split was.was_encoded) h
      (encoder_accepts codec s c was.is_valid) (full_slots codec s chunk code slots c was r h)
      (c.joins s chunk was.parts code was.was_split was.was_encoded)
