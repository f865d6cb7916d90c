-- ===== src/Cluster/List/Tests.antt =====
-- internal/cluster/list.go: a listing of three keys in two groups.
use kavo.Base.{
  ℕ, zero, suc, ◌≡◌, ◌≤◌, index, refl, ap, sym, ◌∙◌, inl, inr, arith, Bool, not, Bool-cases, some,
  List, [], ◌∷◌, ◌++◌, map, take, keep, All, Bytes, text, less, has_prefix, trim_prefix, ok,
}
use kavo.Base.Actions.{◌>>=◌}
use kavo.Object.Manifest.{no_manifest}
use kavo.Meta.Entries.{Entry}
use kavo.Meta.Etcd.{Kv}
use kavo.Meta.Keys.{past_prefix, rune_text, ends_plain}
use kavo.Meta.Store.{object_key}
use kavo.Meta.Manifests.{scan, scan_entries, entries_of}
use kavo.Cluster.Nodes.{Outside}
use kavo.Cluster.Tests.World.{World}
use kavo.Cluster.Collect.Scan.{Sorted}
use kavo.Cluster.List.{ListRequest, ListPage, no_page, list, list_from, list_keys, group_of}
use kavo.Cluster.List.Keys.{Plain, page_of, entry_key, Listed}
use kavo.Cluster.List.Pages.{from_here, Answers, Scans, list_lem}
use kavo.Cluster.List.Limit.{list-Within}
use kavo.Cluster.Tests.World as Test

abbrev pub keys : List Bytes
keys = text "a/1" ∷ text "a/2" ∷ text "b" ∷ []

abbrev entry_of : Bytes → Entry
entry_of k = record { key = k; size = 0; etag = []; modified = 0 }

abbrev pub kv_of : Bytes → Kv
kv_of k = record { key = text "o/" ++ k; value = []; mod_revision = 0 }

abbrev pub from_key : Bytes → Bytes → Bool
from_key start k = not (less (text "o/" ++ k) start)

abbrev pub out : Outside World Bytes
out = record Test.out {
  meta = record Test.out.meta {
    etcd = record Test.out.meta.etcd {
      range = λ start end n w. (ok (map kv_of (take n (keep (from_key start) keys))), w);
    };
    manifests = record { marshal = λ m. ok m.etag; unmarshal = λ b. ok no_manifest };
    join = λ ss. text "o";
    range_end = λ s. text "o0";
    entry = λ b. ok (0, [], 0);
  };
}

abbrev req : ListRequest
req = record { prefix = []; delimiter = text "/"; from = []; limit = 5 }

abbrev xs : List Entry
xs = map entry_of keys

entries_of-map : (ks : List Bytes) → entries_of out.meta (map kv_of ks) ≡ ok (map entry_of ks)
unfolding entries_of trim_prefix has_prefix
entries_of-map [] = refl
entries_of-map (k ∷ ks) = rw (entries_of-map ks, entries_of) refl

take-map : (n : ℕ) (ks : List Bytes) → take n (map entry_of ks) ≡ map entry_of (take n ks)
take-map zero ks = refl
take-map (suc n) [] = refl
take-map (suc n) (k ∷ ks) = ap (◌∷◌ (entry_of k)) (take-map n ks)

keep-map :
    (f : Bytes) (ks : List Bytes)
    → from_here f (map entry_of ks) ≡ map entry_of (keep (from_key (text "o/" ++ f)) ks)
unfolding less
keep-map f [] = refl
keep-map f (k ∷ ks) = elim (Bool-cases (less k f)) [
  | inl e ↦ rw e (keep-map f ks)
  | inr e ↦ rw e (ap (◌∷◌ (entry_of k)) (keep-map f ks))
]

pub scan_at :
    (f : Bytes) (n : ℕ) (w : World)
    → scan out.meta [] f n w ≡ (ok (map kv_of (take n (keep (from_key (text "o/" ++ f)) keys))), w)
unfolding scan object_key less
scan_at [] n w = refl
scan_at (c ∷ f) n w = refl

scan_entries_at :
    (f : Bytes) (n : ℕ) (w : World)
    → (scan_entries out.meta [] f n w).0
      ≡ ok (map entry_of (take n (keep (from_key (text "o/" ++ f)) keys)))
unfolding scan_entries
scan_entries_at f n w =
    rw (scan_at f n w, ◌>>=◌) (entries_of-map (take n (keep (from_key (text "o/" ++ f)) keys)))

scans : Scans out req xs
scans f n w = inr (
    scan_entries_at f n w
    ∙ ap ok
        (sym (ap (take n) (keep-map f keys) ∙ take-map n (keep (from_key (text "o/" ++ f)) keys))))

sorted : Sorted entry_key xs
unfolding less
sorted = ((refl, (refl, tt)), ((refl, tt), (tt, tt)))

listed : All (Listed req) xs
unfolding has_prefix
listed = (
  (refl, (omega arith, (omega arith, (omega arith, tt)))),
  ((refl, (omega arith, (omega arith, (omega arith, tt)))), ((refl, (omega arith, tt)), tt)),
)

pub world : World
world = record { pieces = []; values = [] }

plain : Plain req
unfolding ends_plain past_prefix
plain h = refl

list_lem_example :
    Answers out req xs
      (page_of (list_keys req (from_here [] xs) [] [] no_page))
      (list out 4 req world)
list_lem_example = list_lem out req xs scans sorted listed plain 4 world (omega arith) (omega arith)

abbrev page : ListPage
page = record { objects = entry_of (text "b") ∷ []; prefixes = text "a/" ∷ []; next = [] }

listing : list out 4 req world ≡ some (ok page, world)
unfolding list list_from list_keys group_of index has_prefix trim_prefix scan_entries scan
    object_key less entries_of past_prefix rune_text
listing = refl

list-Within_example : 2 ≤ 5
list-Within_example = list-Within req out 4 world world page listing
