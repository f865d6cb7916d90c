-- ===== src/Meta/Etcd.antt =====
-- go.etcd.io/etcd/client/v3, the package path and encoding/json as internal/meta calls them: what
-- they do is an argument of the model. A world `W` is what the calls act on, `E` their errors.
use kavo.Base.{ℕ, Bool, Option, List, Bytes, Result}
use kavo.Base.Actions.{Action}
use kavo.Faults.{Fault}

pub record Kv : Type 0 where
  pub key : Bytes
  pub value : Bytes
  pub mod_revision : ℕ

-- The comparisons of a transaction: CreateRevision(key) > 0, and ModRevision(key) = revision
pub data Compare : Type 0 where
  created : Bytes → Compare
  modified_at : Bytes → ℕ → Compare

-- `range` reads from a key up to another, in key order, at most as many keys as the limit; `txn` puts
-- a value if all comparisons hold, and tells whether they did; `delete_range` and `read_prefix` are
-- the calls with WithPrefix.
pub record Etcd (W E : Type 0) : Type 0 where
  pub get : Bytes → Action W (Fault E) (Option Kv)
  pub range : Bytes → Bytes → ℕ → Action W (Fault E) (List Kv)
  pub read_prefix : Bytes → Action W (Fault E) (List Kv)
  pub put : Bytes → Bytes → Action W (Fault E) (Unit {0})
  pub put_leased : Bytes → Bytes → Action W (Fault E) (Unit {0})
  pub delete : Bytes → Action W (Fault E) (Unit {0})
  pub delete_range : Bytes → Action W (Fault E) (Unit {0})
  pub txn : List Compare → Bytes → Bytes → Action W (Fault E) Bool

-- json.Marshal and json.Unmarshal at one type
pub record Json (E A : Type 0) : Type 0 where
  pub marshal : A → Result (Fault E) Bytes
  pub unmarshal : Bytes → Result (Fault E) A
