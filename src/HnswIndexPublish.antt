-- ===== src/HnswIndexPublish.antt =====
-- src/hnsw_index_publish.cpp: publishing an HNSW snapshot through a temporary file. The file system
-- maps names to contents; each system call may fail, and a run is the list of the states after each
-- call that changes it, so that a crash leaves one of them.
pub mod Atomic
pub mod Delivered
use Prim.Native.String.{String}
use Prim.Native.Char.{code}
use text.Mathlib.Text.{◌==◌ as str_eq}
use fast_vector.Prelude.{
  ℕ, Bool, true, false, not, ◌||◌, List, [], ◌∷◌, Option, none, some, ◌==◌, if◌then◌else◌, is_some,
  Result, ok, err, Error, not_a_file_name, verification_failed, system_error,
}
use fast_vector.Distance.{Machine, DotProductKernel}
use fast_vector.FlatIndexIo.{Disk}
use fast_vector.HnswIndex
use fast_vector.HnswIndex.{Platform, HnswIndex}
use fast_vector.HnswIndexIo.Save.{RandomText, save}
use fast_vector.HnswIndexIo.Load.{load}

abbrev pub FileSystem : Type 0
FileSystem = String → Option (List ℕ)

abbrev pub put : FileSystem → String → Option (List ℕ) → FileSystem
put files name content q = if str_eq q name then content else files q

-- What the operating system answers: the name that mkstemp chose, the stream that save writes to
-- with what a failing write leaves, and whether each call succeeds.
pub record Calls : Type 0 where
  pub temporary : String
  pub creates : Bool
  pub disk : Disk
  pub partial : List ℕ
  pub syncs_file : Bool
  pub renames : Bool
  pub links : Bool
  pub unlinks : Bool
  pub syncs_parent : Bool
  pub removes : Bool

-- The states after each change, oldest first.
pub record Run : Type 0 where
  pub states : List FileSystem
  pub result : Result (Unit {0})

abbrev pub stop : Result (Unit {0}) → Run
stop result = record { states = []; result = result }

abbrev pub visit : FileSystem → Run → Run
visit files run = record { states = files ∷ run.states; result = run.result }

-- `path.empty() || path.filename().empty()`: no name, or a slash at the end.
unfoldable pub names_no_file : String → Bool
names_no_file String.[] = true
names_no_file (String.◌∷◌ c String.[]) = code c == b'/'
names_no_file (String.◌∷◌ c (String.◌∷◌ d rest)) = names_no_file (String.◌∷◌ d rest)

module _ (platform : Platform) (text : RandomText platform) (m : Machine)
    (kernel : DotProductKernel) (calls : Calls) where
  -- The destructor of TemporaryPath, on every way out.
  unfoldable pub clean : FileSystem → Result (Unit {0}) → Run
  clean files result =
      visit (if calls.removes then put files calls.temporary none else files) (stop result)

  unfoldable pub sync_parent : FileSystem → Run
  unfolding clean
  sync_parent files =
      if calls.syncs_parent then clean files (ok tt) else clean files (err system_error)

  unfoldable pub replace : FileSystem → String → Run
  unfolding clean sync_parent
  replace files path =
      if not calls.renames
      then clean files (err system_error)
      else let renamed = put (put files path (files calls.temporary)) calls.temporary none in
        visit renamed (sync_parent renamed)

  -- link does not replace a file that is there.
  unfoldable pub link_new : FileSystem → String → Run
  unfolding clean sync_parent
  link_new files path =
      if not calls.links || is_some (files path)
      then clean files (err system_error)
      else let linked = put files path (files calls.temporary) in
        let unlinked = put linked calls.temporary none in
        visit linked (
          if calls.unlinks
          then visit unlinked (sync_parent unlinked)
          else clean linked (err system_error))

  unfoldable pub install : FileSystem → String → Bool → Run
  unfolding clean replace link_new
  install files path overwrite =
      if not calls.syncs_file
      then clean files (err system_error)
      else if overwrite
      then replace files path
      else link_new files path

  -- Whether the index that was read back has the size and the edges of the one that was saved.
  unfoldable pub differs : HnswIndex platform → HnswIndex platform → Bool
  differs verified index =
      not (HnswIndex.size platform verified == HnswIndex.size platform index)
      || not (
          (HnswIndex.stats platform verified).directed_edge_count
          == (HnswIndex.stats platform index).directed_edge_count)

  unfoldable pub verify : HnswIndex platform → FileSystem → String → Bool → Run
  unfolding clean install differs
  verify index files path overwrite = elim (load platform text m (files calls.temporary) kernel) [
    | err e ↦ clean files (err e)
    | ok verified ↦
        if differs verified index
        then clean files (err verification_failed)
        else install files path overwrite
  ]

  unfoldable pub write_temporary : HnswIndex platform → FileSystem → String → Bool → Run
  unfolding clean verify
  write_temporary index files path overwrite = elim (save platform text calls.disk index) [
    | err e ↦
        let torn = put files calls.temporary (some calls.partial) in visit torn (clean torn (err e))
    | ok bytes ↦
        let written = put files calls.temporary (some bytes) in
        visit written (verify index written path overwrite)
  ]

  unfoldable pub publish_hnsw_index : HnswIndex platform → FileSystem → String → Bool → Run
  unfolding names_no_file write_temporary
  publish_hnsw_index index files path overwrite =
      if names_no_file path
      then stop (err not_a_file_name)
      else if not calls.creates
      then stop (err system_error)
      else let created = put files calls.temporary (some []) in
        visit created (write_temporary index created path overwrite)
