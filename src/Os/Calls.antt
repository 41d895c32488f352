-- ===== src/Os/Calls.antt =====
-- The calls of packages os and io that the backend makes, on a file tree.
use home_store.Prelude.{
  ℕ, Bool, true, false, Option, none, some, List, [], ◌∷◌, ◌++◌, if◌then◌else◌, length,
}
use home_store.Prelude.Bytes.{Bytes}
use home_store.Storage.{not_exist, other}
use home_store.Os.Path.{FilePath, dir_of, above}
use home_store.Os.Disk.{
  Disk, Node, dir, file, Content, raw, Doc, lookup, insert, erase, erase_under, make_dirs, blocked,
  entries,
}
use home_store.Os.Exec.{Result, ok, err, Fs, call}

-- What the standard library computes for the code. `json_string` is a string after a Marshal and
-- an Unmarshal (invalid UTF-8 is replaced), `suffix` what os.CreateTemp puts in place of the star.
pub record Env : Type 0 where
  pub sha256 : Bytes → Bytes
  pub md5 : Bytes → Bytes
  pub marshal : Doc → Bytes
  pub json_string : Bytes → Bytes
  pub now : ℕ
  pub random : Bytes
  pub suffix : Bytes

-- An io.Reader: the bytes that it gives, and whether it then ends or fails.
pub record Reader : Type 0 where
  pub content : Bytes
  pub intact : Bool

abbrev pub same : (FilePath → Bool) → Disk → Disk
same keep d = d

-- The node at a path; the error says whether os.IsNotExist holds of it.
abbrev pub find : FilePath → Disk → Result Node
find p d =
    if blocked p d then err other else elim (lookup p d) [ none ↦ err not_exist | some n ↦ ok n ]

-- os.Stat
unfoldable pub stat : FilePath → Fs Node
stat p = call (λ d. (find p d, d)) same

abbrev pub contents : Result Node → Result Content
contents (ok (file c)) = ok c
contents (ok dir) = err other
contents (err e) = err e

-- os.ReadFile, and os.Open of a file that is then read.
unfoldable pub read_file : FilePath → Fs Content
read_file p = call (λ d. (contents (find p d), d)) same

abbrev listing : FilePath → Disk → Result Node → Result (List (Bytes × Node))
listing p d (ok dir) = ok (entries p d)
listing p d (ok (file c)) = err other
listing p d (err e) = err e

-- os.ReadDir
unfoldable pub read_dir : FilePath → Fs (List (Bytes × Node))
read_dir p = call (λ d. (listing p d (find p d), d)) same

abbrev pub mkdir_step : FilePath → Disk → Bool → Option Node → Result Unit × Disk
mkdir_step p d true o = (err other, d)
mkdir_step p d false (some (file c)) = (err other, d)
mkdir_step p d false _ = (ok tt, make_dirs (above p ++ p ∷ []) d)

-- os.MkdirAll. One that fails is taken to have made nothing.
unfoldable pub mkdir_all : FilePath → Fs Unit
mkdir_all p = call (λ d. mkdir_step p d (blocked p d) (lookup p d)) same

-- Writing needs the directory, and no directory at the path itself.
abbrev pub place : FilePath → Content → Disk → Result Node → Option Node → Result Unit × Disk
place p c d (ok dir) (some dir) = (err other, d)
place p c d (ok dir) _ = (ok tt, insert p (file c) d)
place p c d (ok (file _)) _ = (err other, d)
place p c d (err e) _ = (err e, d)

abbrev pub write_step : FilePath → Content → Disk → Result Unit × Disk
write_step p c d = place p c d (find (dir_of p) d) (lookup p d)

-- A write that fails midway leaves the truncated file.
abbrev pub torn_write : FilePath → (FilePath → Bool) → Disk → Disk
torn_write p keep d = (write_step p (raw []) d).1

-- os.WriteFile
unfoldable pub write_file : FilePath → Content → Fs Unit
write_file p c = call (write_step p c) (torn_write p)

abbrev pub opened : FilePath → Result Unit → Result FilePath
opened p (ok _) = ok p
opened p (err e) = err e

abbrev pub fresh : FilePath → Disk → Option Node → Result FilePath × Disk
fresh p d (some n) = (err other, d)
fresh p d none = let (r, d') = write_step p (raw []) d in (opened p r, d')

-- os.CreateTemp(p, name + "*"): a new empty file with the random suffix on which it settles.
unfoldable pub create_temp : FilePath → Bytes → Bytes → Fs FilePath
create_temp p name suffix =
    let t = p ++ (name ++ suffix) ∷ [] in call (λ d. fresh t d (lookup t d)) same

abbrev pub appended : Bytes → Option Node → Node
appended more (some (file (raw b))) = file (raw (b ++ more))
appended more _ = file (raw more)

-- io.Copy from a reader to the end of an open file: the number of bytes.
unfoldable pub copy_to : FilePath → Reader → Fs ℕ
copy_to p r =
    call
      (λ d. (
        if r.intact then ok (length r.content) else err other,
        insert p (appended r.content (lookup p d)) d,
      ))
      same

-- Closing a file that was written to.
unfoldable pub close : Fs Unit
close = call (λ d. (ok tt, d)) same

abbrev pub move :
    FilePath → FilePath → Disk → Result Content → Result Node → Option Node → Result Unit × Disk
move p q d (ok c) (ok dir) (some dir) = (err other, d)
move p q d (ok c) (ok dir) _ = (ok tt, insert q (file c) (erase p d))
move p q d (ok c) (ok (file _)) _ = (err other, d)
move p q d (ok c) (err e) _ = (err e, d)
move p q d (err e) _ _ = (err e, d)

-- os.Rename of a file; it replaces a file at the new path.
unfoldable pub rename : FilePath → FilePath → Fs Unit
rename p q = call (λ d. move p q d (contents (find p d)) (find (dir_of q) d) (lookup q d)) same

abbrev pub is_empty : List (Bytes × Node) → Bool
is_empty [] = true
is_empty (x ∷ xs) = false

abbrev pub drop_node : FilePath → Disk → Result Node → Result Unit × Disk
drop_node p d (ok (file c)) = (ok tt, erase p d)
drop_node p d (ok dir) = if is_empty (entries p d) then (ok tt, erase p d) else (err other, d)
drop_node p d (err e) = (err e, d)

-- os.Remove
unfoldable pub remove : FilePath → Fs Unit
remove p = call (λ d. drop_node p d (find p d)) same

abbrev pub remove_step : FilePath → Disk → Bool → Result Unit × Disk
remove_step p d true = (err other, d)
remove_step p d false = (ok tt, erase_under (λ _. false) p d)

-- os.RemoveAll: a path that is not there is no error; midway, some entries are still there.
unfoldable pub remove_all : FilePath → Fs Unit
remove_all p = call (λ d. remove_step p d (blocked p d)) (λ keep d. erase_under keep p d)
