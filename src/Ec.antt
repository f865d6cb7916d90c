-- ===== src/Ec.antt =====
-- internal/ec/ec.go: a chunk as data and parity shards. The codec, github.com/klauspost/reedsolomon,
-- is the parameter `codec`; `Codes` is what its documentation says of it.
pub mod Rebuild
pub mod Tests
use kavo.Base.{
  ℕ, suc, ◌+◌, ◌≤◌, ◌<◌, ◌≡◌, Bool, true, false, ◌&&◌, not, Option, none, some, List, [], ◌∷◌, map,
  ltb, leb, ◌==◌, if◌then◌else◌, length, Bytes, Result, ok, err, ◌>>=◌, ◌>>◌, fail_if,
}

pub record Scheme : Type 0 where
  pub data_shards : ℕ
  pub parity : ℕ

-- Shards
abbrev pub shards : Scheme → ℕ
shards s = s.data_shards + s.parity

-- Valid
unfoldable pub valid : Scheme → Bool
valid s = ltb 0 s.data_shards && ltb 0 s.parity && leb (shards s) 256

-- The comparison with the zero Scheme, which stands for replication.
abbrev pub is_zero : Scheme → Bool
is_zero s = s.data_shards == 0 && s.parity == 0

pub data EcError : Type 0 where
  slot_count too_few_shards invalid_scheme codec_failed : EcError

-- The calls of the codec. A shard that is missing is `none`.
pub record Codec : Type 0 where
  pub make : Scheme → Result EcError (Unit {0})
  pub split : Scheme → Bytes → Result EcError (List Bytes)
  pub encode : Scheme → List Bytes → Result EcError (List Bytes)
  pub rebuild : Scheme → List (Option Bytes) → Result EcError (List (Option Bytes))
  pub join : Scheme → List (Option Bytes) → ℕ → Result EcError Bytes

unfoldable pub present : List (Option Bytes) → ℕ
present [] = 0
present (none ∷ slots) = present slots
present (some s ∷ slots) = suc (present slots)

-- Each slot is missing, or holds the shard of its position.
pub data Survives : List (Option Bytes) → List Bytes → Type 0 where
  end : Survives [] []
  lost :
      {slots : List (Option Bytes)} {code : List Bytes} (s : Bytes)
      → Survives slots code
      → Survives (none ∷ slots) (s ∷ code)
  held :
      {slots : List (Option Bytes)} {code : List Bytes} (s : Bytes)
      → Survives slots code
      → Survives (some s ∷ slots) (s ∷ code)

-- What the codec promises of a scheme that it accepts.
pub record Codes (codec : Codec) : Type 0 where
  pub accepts : (s : Scheme) → valid s ≡ true → codec.make s ≡ ok tt
  pub counts :
      (s : Scheme) (chunk : Bytes) (parts code : List Bytes)
      → codec.split s chunk ≡ ok parts
      → codec.encode s parts ≡ ok code
      → length code ≡ shards s
  pub fills :
      (s : Scheme) (chunk : Bytes) (parts code : List Bytes) (slots : List (Option Bytes))
      → codec.split s chunk ≡ ok parts
      → codec.encode s parts ≡ ok code
      → Survives slots code
      → s.data_shards ≤ present slots
      → codec.rebuild s slots ≡ ok (map some code)
  pub joins :
      (s : Scheme) (chunk : Bytes) (parts code : List Bytes)
      → codec.split s chunk ≡ ok parts
      → codec.encode s parts ≡ ok code
      → codec.join s (map some code) (length chunk) ≡ ok chunk

-- encoder
pub encoder : Codec → Scheme → Result EcError (Unit {0})
encoder codec s = if valid s then codec.make s else err invalid_scheme

-- Encode
pub encode : Codec → Scheme → Bytes → Result EcError (List Bytes)
encode codec s chunk = do encoder codec s; parts ← codec.split s chunk; codec.encode s parts

-- Reconstruct, which also leaves the rebuilt shards in the slots that it was given.
pub reconstruct :
    Codec → Scheme → List (Option Bytes) → ℕ → Result EcError (Bytes × List (Option Bytes))
reconstruct codec s slots size = do
  fail_if (not (length slots == shards s)) slot_count
  fail_if (ltb (present slots) s.data_shards) too_few_shards
  encoder codec s
  full ← if ltb (present slots) (shards s) then codec.rebuild s slots else ok slots
  chunk ← codec.join s full size
  ok (chunk, full)
