-- ===== src/Meta/Entries.antt =====
-- internal/meta: what a scan yields. A revision is a number.
use kavo.Base.{ℕ, Bytes}
use kavo.Object.Manifest.{Manifest}
use kavo.Meta.Store.{Upload}

-- Object
pub record Object : Type 0 where
  pub key : Bytes
  pub manifest : Manifest
  pub revision : ℕ

-- PartRef: a part of an upload, or the zero manifest for a record that is not a part
pub record PartRef : Type 0 where
  pub key : Bytes
  pub manifest : Manifest

-- Entry: an object as a listing sees it
pub record Entry : Type 0 where
  pub key : Bytes
  pub size : ℕ
  pub etag : Bytes
  pub modified : ℕ

pub record UploadRef : Type 0 where
  pub id : Bytes
  pub upload : Upload
