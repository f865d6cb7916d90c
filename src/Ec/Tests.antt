-- ===== src/Ec/Tests.antt =====
-- A code with one data shard and one parity shard, which holds the data again.
use mathlib.Core.Path.{ap₂}
use kavo.Base.{
  ℕ, zero, suc, subst, All, ◌≤◌, ◌<◌, ◌≡◌, refl, ap, sym, Option, none, some, List, [], ◌∷◌, map,
  arith, ltb, if◌then◌else◌, length, Bytes, text, ok, err,
}
use kavo.Ec.{
  Scheme, shards, valid, codec_failed, invalid_scheme, Codec, present, Survives, end, lost, held,
  Codes, encoder, encode, reconstruct,
}
use kavo.Ec.Rebuild.{reconstruct-encode}

copies : ℕ → Bytes → List Bytes
copies zero chunk = []
copies (suc n) chunk = chunk ∷ copies n chunk

first_present : List (Option Bytes) → Bytes
first_present [] = []
first_present (none ∷ slots) = first_present slots
first_present (some s ∷ slots) = s

fill : Bytes → List (Option Bytes) → List (Option Bytes)
fill s [] = []
fill s (x ∷ slots) = some s ∷ fill s slots

head : List Bytes → Bytes
head [] = []
head (x ∷ xs) = x

-- A codec for tests: every shard is the whole chunk.
abbrev mirror : Codec
mirror = record {
  make = λ s. ok tt;
  split = λ s chunk. if ltb 0 s.data_shards then ok (chunk ∷ []) else err codec_failed;
  encode = λ s parts. ok (copies (shards s) (head parts));
  rebuild = λ s slots. ok (fill (first_present slots) slots);
  join = λ s slots size. ok (first_present slots);
}

abbrev AllSame : Bytes → List Bytes → Type 0
AllSame chunk = All (λ x. x ≡ chunk)

copies-AllSame : (n : ℕ) (chunk : Bytes) → AllSame chunk (copies n chunk)
unfolding copies
copies-AllSame zero chunk = tt
copies-AllSame (suc n) chunk = (refl, copies-AllSame n chunk)

length-copies : (n : ℕ) (chunk : Bytes) → length (copies n chunk) ≡ n
unfolding copies
length-copies zero chunk = refl
length-copies (suc n) chunk = ap suc (length-copies n chunk)

survivor :
    {slots : List (Option Bytes)} {code : List Bytes} (chunk : Bytes)
    → Survives slots code
    → AllSame chunk code
    → 0 < present slots
    → first_present slots ≡ chunk
unfolding first_present present
survivor chunk end a h = absurd (omega arith)
survivor chunk (lost s r) a h = survivor chunk r a.1 h
survivor chunk (held s r) a h = a.0

filled :
    {slots : List (Option Bytes)} {code : List Bytes} (chunk : Bytes)
    → Survives slots code
    → AllSame chunk code
    → fill chunk slots ≡ map some code
unfolding fill
filled chunk end a = refl
filled chunk (lost s r) a = ap₂ ◌∷◌ (ap some (sym a.0)) (filled chunk r a.1)
filled chunk (held s r) a = ap₂ ◌∷◌ (ap some (sym a.0)) (filled chunk r a.1)

first_of_copies :
    (n : ℕ) (chunk : Bytes) (code : List Bytes)
    → 0 < n
    → code ≡ copies n chunk
    → first_present (map some code) ≡ chunk
unfolding copies first_present
first_of_copies zero chunk code h e = absurd (omega arith)
first_of_copies (suc n) chunk code h e = rw e

-- What the test codec has done when it has split and encoded.
mirror_code :
    (s : Scheme) (chunk : Bytes) (parts code : List Bytes)
    → mirror.split s chunk ≡ ok parts
    → mirror.encode s parts ≡ ok code
    → (0 < s.data_shards) × (code ≡ copies (shards s) chunk)
unfolding head
mirror_code s chunk parts code h k = ground arith

mirror-Codes : Codes mirror
mirror-Codes = record {
  accepts = λ s h. refl;
  counts = λ s chunk parts code h k.
      rw (mirror_code s chunk parts code h k).1 (length-copies (shards s) chunk);
  fills = λ s chunk parts code slots h k r enough.
      mirror_fills s chunk code slots (mirror_code s chunk parts code h k).0
        (mirror_code s chunk parts code h k).1 r enough;
  joins = λ s chunk parts code h k.
      mirror_joins s chunk code (mirror_code s chunk parts code h k).0
        (mirror_code s chunk parts code h k).1;
}
  where
    mirror_fills :
        (s : Scheme) (chunk : Bytes) (code : List Bytes) (slots : List (Option Bytes))
        → 0 < s.data_shards
        → code ≡ copies (shards s) chunk
        → Survives slots code
        → s.data_shards ≤ present slots
        → mirror.rebuild s slots ≡ ok (map some code)
    mirror_fills s chunk code slots pos e r enough =
        let same_all : AllSame chunk code =
          subst (AllSame chunk) (sym e) (copies-AllSame (shards s) chunk) in
        rw (survivor chunk r same_all (omega arith)) (ap ok (filled chunk r same_all))

    mirror_joins :
        (s : Scheme) (chunk : Bytes) (code : List Bytes)
        → 0 < s.data_shards
        → code ≡ copies (shards s) chunk
        → mirror.join s (map some code) (length chunk) ≡ ok chunk
    mirror_joins s chunk code pos e = ap ok (first_of_copies (shards s) chunk code (omega arith) e)

abbrev two_one : Scheme
two_one = record { data_shards = 2; parity = 1 }

abbrev chunk : Bytes
chunk = text "kavo"

-- The second shard is lost.
abbrev slots : List (Option Bytes)
slots = some chunk ∷ none ∷ some chunk ∷ []

encode_run : encode mirror two_one chunk ≡ ok (chunk ∷ chunk ∷ chunk ∷ [])
unfolding encode encoder valid copies head
encode_run = refl

zero_parity_run : encode mirror (record { data_shards = 2; parity = 0 }) chunk ≡ err invalid_scheme
unfolding encode encoder valid
zero_parity_run = refl

reconstruct-encode_example :
    reconstruct mirror two_one slots (length chunk)
    ≡ ok (chunk, map some (chunk ∷ chunk ∷ chunk ∷ []))
unfolding present
reconstruct-encode_example =
    reconstruct-encode mirror two_one chunk (chunk ∷ chunk ∷ chunk ∷ []) slots mirror-Codes
      encode_run (held chunk (lost chunk (held chunk end))) (omega arith)
