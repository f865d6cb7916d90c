-- ===== src/ChunkStore/Tests.antt =====
-- A file system that is a function from paths to contents, with and without a failing sync of
-- directories.
use kavo.Base.{
  ℕ, ◌+◌, ◌-◌, ◌≡◌, ◌≢◌, refl, ap, sym, ◌∙◌, inl, inr, Bool, true, false, Bool-cases, Option, none,
  some, List, [], ◌∷◌, ◌++◌, length, take, Bytes, text, same, same_iff, same_refl, if◌then◌else◌,
  arith, Result, ok, err, ok-ne-err,
}
use kavo.Faults.{Fault, outside}
use kavo.Object.Write.{Source}
use kavo.Object.Read.{Reader}
use kavo.Object.Read.Window.{joined}
use kavo.ChunkStore.{
  Os, ChunkStore, chunk_path, write_chunk_verified, read_chunk, durable_write, staged, abandon,
  matches, validate_id,
}
use kavo.ChunkStore.Atomic.{Files}
use kavo.ChunkStore.Verified.{Lands, write_chunk_verified-Lands, read_chunk-write_chunk_verified}

abbrev World : Type 0
World = Bytes → Option Bytes

abbrev update : Bytes → Option Bytes → World → World
update q v w p = if same p q then v else w p

abbrev appended : Option Bytes → Bytes → Option Bytes
appended none bytes = none
appended (some was) bytes = some (was ++ bytes)

abbrev joined_path : List Bytes → Bytes
joined_path [] = []
joined_path (x ∷ []) = x
joined_path (x ∷ y ∷ ys) = x ++ text "/" ++ joined_path (y ∷ ys)

-- A path without its last two bytes
abbrev folder : Bytes → Bytes
folder [] = []
folder (a ∷ []) = []
folder (a ∷ b ∷ []) = []
folder (a ∷ b ∷ c ∷ cs) = a ∷ folder (b ∷ c ∷ cs)

abbrev a_source : Option Bytes → Option Source
a_source none = none
a_source (some bytes) = some (record { content = bytes; fails = false })

abbrev synced : Bool → Result (Fault Bytes) (Unit {0})
synced true = ok tt
synced false = err (outside (text "disk"))

abbrev os : Bool → Os World Bytes
os works = record {
  create_temp = λ d w. (ok (d ++ text "/w"), update (d ++ text "/w") (some []) w);
  write_file = λ p bytes w. (ok tt, update p (appended (w p) bytes) w);
  sync_file = λ p w. (ok tt, w);
  close_file = λ p w. (ok tt, w);
  mkdir_all = λ p w. (ok tt, w);
  rename = λ q p w. (ok tt, update p (w q) w);
  sync_dir = λ p w. (synced works, w);
  remove = λ p w. (ok true, update p none w);
  remove_all = λ p w. (ok tt, w);
  open_file = λ p w. (ok (a_source (w p)), w);
  stat = λ p w. (ok true, w);
  join = joined_path;
  dir = folder;
}

abbrev at : World → Bytes → Option Bytes
at w = w

folder-temp : (d : Bytes) → folder (d ++ text "/w") ≡ d
folder-temp [] = refl
folder-temp (a ∷ []) = refl
folder-temp (a ∷ b ∷ []) = refl
folder-temp (a ∷ b ∷ c ∷ cs) = ap (◌∷◌ a) (folder-temp (b ∷ c ∷ cs))

update_other : (q p : Bytes) (v : Option Bytes) (w : World) → p ≢ q → update q v w p ≡ w p
update_other q p v w ne = elim (Bool-cases (same p q)) [
  | inl e ↦ absurd (ne ((same_iff p q).0 e))
  | inr e ↦ rw e
]

update_same : (p : Bytes) (v : Option Bytes) (w : World) → update p v w p ≡ v
update_same p v w = rw (same_refl p)

made_there :
    (d tmp : Bytes) (w : World)
    → Path (Result (Fault Bytes) Bytes) (ok (d ++ text "/w")) (ok tmp)
    → (folder tmp ≡ d) × (update (d ++ text "/w") (some []) w tmp ≡ some [])
made_there d tmp w made =
    let e : d ++ text "/w" ≡ tmp = cc in
    (
      ap folder (sym e) ∙ folder-temp d,
      ap (update (d ++ text "/w") (some []) w) (sym e) ∙ update_same (d ++ text "/w") (some []) w,
    )

files : (works : Bool) → Files (os works) at
files works = record {
  temp_made = λ d tmp w made. made_there d tmp w made;
  temp_keeps = λ d p w ne.
      update_other (d ++ text "/w") p (some []) w (λ e. ne (ap folder e ∙ folder-temp d));
  written = λ p bytes was w there done.
      update_same p (appended (w p) bytes) w ∙ ap (λ x. appended x bytes) there;
  write_keeps = λ q bytes p w ne. update_other q p (appended (w q) bytes) w ne;
  sync_keeps = λ q p w. refl;
  close_keeps = λ q p w. refl;
  mkdir_keeps = λ q p w. refl;
  sync_dir_keeps = λ q p w. refl;
  renamed = λ q p w done. update_same p (w q) w;
  rename_failed = λ q p e w failed. absurd (ok-ne-err failed);
  remove_keeps = λ q p w ne. update_other q p none w ne;
}

abbrev chunks : ChunkStore
chunks = record { tmp_dir = text "tmp"; chunks_dir = text "chunks" }

abbrev body : Source
body = record { content = text "hello"; fails = false }

abbrev empty : World
empty p = none

elsewhere :
    (works : Bool) → (os works).dir (chunk_path (os works) length chunks (text "abc")) ≢ text "tmp"
unfolding chunk_path
elsewhere works e = absurd cc

-- The write is refused, and the chunk is there all the same.
failed_sync :
    (write_chunk_verified (os false) length chunks (text "abc") body 5 5 empty).0
    ≡ err (outside (text "disk"))
unfolding write_chunk_verified durable_write staged abandon matches validate_id chunk_path
    kavo.Base.has_byte
failed_sync = refl

failed_sync_visible :
    (write_chunk_verified (os false) length chunks (text "abc") body 5 5 empty).1
      (text "chunks/ab/abc")
    ≡ some (text "hello")
unfolding write_chunk_verified durable_write staged abandon matches validate_id chunk_path
    kavo.Base.has_byte same
failed_sync_visible = refl

write_chunk_verified-Lands_example :
    Lands
      (os false)
      length
      at
      (files false)
      chunks
      (text "abc")
      body
      5
      5
      none
      (write_chunk_verified (os false) length chunks (text "abc") body 5 5 empty)
write_chunk_verified-Lands_example =
    write_chunk_verified-Lands (os false) length at (files false) chunks (text "abc") body 5 5 empty
      (elsewhere false)

written_ok : (write_chunk_verified (os true) length chunks (text "abc") body 5 5 empty).0 ≡ ok tt
unfolding write_chunk_verified durable_write staged abandon matches validate_id chunk_path
    kavo.Base.has_byte
written_ok = refl

read_chunk-write_chunk_verified_example :
    (rc : Reader) × ((read_chunk
        (os true)
        length
        chunks
        (text "abc")
        5
        (write_chunk_verified (os true) length chunks (text "abc") body 5 5 empty).1).0
      ≡ ok rc)
    × (joined rc.pieces ≡ text "hello")
    × (rc.verified ≡ true)
read_chunk-write_chunk_verified_example =
    read_chunk-write_chunk_verified (os true) length at (files true) chunks (text "abc") body 5 5
      empty (elsewhere true) written_ok (λ w bytes there. ap (λ x. ok (a_source x)) there)
