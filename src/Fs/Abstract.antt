-- ===== src/Fs/Abstract.antt =====
-- The objects of one bucket as a store by key: what the operations on objects promise, with no files.
pub mod Refines
use home_store.Prelude.{Bool, true, Option, none, some, List, [], ◌∷◌, if◌then◌else◌, length}
use home_store.Prelude.Bytes.{Bytes, bytes_eq}
use home_store.Storage.{ObjectMeta, object_not_found}
use home_store.Os.Disk.{Disk}
use home_store.Os.Exec.{Result, ok, err, calm}
use home_store.Os.Calls.{Env, Reader}
use home_store.Fs.Metadata.{json_meta}
use home_store.Fs.Objects.{put_object, get_object, head_object, delete_object, stored_meta}

-- The bytes and the metadata of each key that has an object.
abbrev pub Store : Type 0
Store = Bytes → Option (Bytes × ObjectMeta)

unfoldable pub set : Bytes → Option (Bytes × ObjectMeta) → Store → Store
unfolding bytes_eq
set k v s k' = if bytes_eq k k' then v else s k'

-- The operations, PutObject with the bytes of its body.
pub data Op : Type 0 where
  put : Bytes → Bytes → ObjectMeta → Op
  get head delete : Bytes → Op

pub data Reply : Type 0 where
  done : Result Unit → Reply
  object : Result (Reader × ObjectMeta) → Reply
  described : Result ObjectMeta → Reply

abbrev pub key_of : Op → Bytes
key_of (put k content meta) = k
key_of (get k) = k
key_of (head k) = k
key_of (delete k) = k

abbrev pub found : Option (Bytes × ObjectMeta) → Result (Reader × ObjectMeta)
found none = err object_not_found
found (some (content, meta)) = ok (record { content = content; intact = true }, meta)

abbrev pub metadata_of : Option (Bytes × ObjectMeta) → Result ObjectMeta
metadata_of none = err object_not_found
metadata_of (some (content, meta)) = ok meta

module _ (env : Env) where
  -- What is kept of a body and the metadata of a request.
  abbrev pub kept_object : Bytes → Bytes → ObjectMeta → Bytes × ObjectMeta
  kept_object k content meta =
      (content, json_meta env (stored_meta env k content (length content) meta))

  unfoldable pub spec_step : Op → Store → Reply × Store
  unfolding set
  spec_step (put k content meta) s = (done (ok tt), set k (some (kept_object k content meta)) s)
  spec_step (get k) s = (object (found (s k)), s)
  spec_step (head k) s = (described (metadata_of (s k)), s)
  spec_step (delete k) s = (done (ok tt), set k none s)

  unfoldable pub spec_run : List Op → Store → List Reply × Store
  unfolding spec_step
  spec_run [] s = ([], s)
  spec_run (o ∷ os) s =
      let (r, s') = spec_step o s in let (rs, s'') = spec_run os s' in (r ∷ rs, s'')

  module _ (bucket : Bytes) where
    -- The operation of the backend, where no call fails for an outside reason.
    unfoldable pub fs_step : Op → Disk → Reply × Disk
    fs_step (put k content meta) d =
        let (r, w) =
          put_object env bucket k (record { content = content; intact = true }) meta (calm d) in
        (done r, w.disk)
    fs_step (get k) d = let (r, w) = get_object env bucket k (calm d) in (object r, w.disk)
    fs_step (head k) d = let (r, w) = head_object env bucket k (calm d) in (described r, w.disk)
    fs_step (delete k) d = let (r, w) = delete_object env bucket k (calm d) in (done r, w.disk)

    unfoldable pub fs_run : List Op → Disk → List Reply × Disk
    unfolding fs_step
    fs_run [] d = ([], d)
    fs_run (o ∷ os) d = let (r, d') = fs_step o d in let (rs, d'') = fs_run os d' in (r ∷ rs, d'')
