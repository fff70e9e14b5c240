-- ===== src/HnswIndexPublish/Delivered.antt =====
-- What a publication that returns has left.
use Prim.Native.String.{String}
use text.Mathlib.Text.{◌==◌ as str_eq}
use mathlib.Core.Path.{subst}
use text.Mathlib.TextPositions.{eq_refl}
use fast_vector.Prelude.{
  ℕ, ◌≡◌, inl, inr, refl, Bool, true, false, not, ◌||◌, List, [], ◌∷◌, none, some, is_some, if_elim,
  sym, verification_failed, ok, err, Result-cases, system_error, Error,
}
use fast_vector.Distance.{Machine, DotProductKernel}
use fast_vector.HnswIndex.{Platform, HnswIndex}
use fast_vector.HnswIndexIo.Save.{RandomText, save}
use fast_vector.HnswIndexIo.Load.{load}
use fast_vector.HnswIndexPublish.{
  FileSystem, put, Calls, Run, visit, clean, sync_parent, replace, link_new, install, differs,
  verify, write_temporary, publish_hnsw_index, names_no_file,
}
use fast_vector.HnswIndexPublish.Atomic.{IsSnapshot}

-- The last state of a run that starts at `files`.
abbrev pub final : FileSystem → List FileSystem → FileSystem
final files [] = files
final files (g ∷ gs) = final g gs

module _ (platform : Platform) (text : RandomText platform) (m : Machine)
    (kernel : DotProductKernel) (calls : Calls) (index : HnswIndex platform) (before : FileSystem)
    (path : String) (overwrite : Bool) where
  module _ (apart : str_eq path calls.temporary ≡ false) where
    named : str_eq path path ≡ true
    named = eq_refl path

    self : str_eq calls.temporary calls.temporary ≡ true
    self = eq_refl calls.temporary

    -- A run that returns has left a whole snapshot, and no temporary file.
    abbrev Delivers : FileSystem → Run → Type 0
    Delivers files run =
        run.result ≡ ok tt
        → (bytes : List ℕ) × IsSnapshot platform text m kernel calls index before path overwrite
            bytes
          × (final files run.states path ≡ some bytes)
          × (final files run.states calls.temporary ≡ none)

    fails-Delivers :
        (files : FileSystem) (e : Error)
        → Delivers files (clean platform text m kernel calls files (err e))
    unfolding clean
    fails-Delivers files e h = cc

    synced-Delivers :
        (files : FileSystem) (bytes : List ℕ)
        → IsSnapshot platform text m kernel calls index before path overwrite bytes
        → files path ≡ some bytes
        → files calls.temporary ≡ none
        → Delivers files (sync_parent platform text m kernel calls files)
    unfolding sync_parent clean
    synced-Delivers files bytes whole there gone =
        if_elim (Delivers files) calls.syncs_parent _ _
          (λ e h. (
            bytes,
            whole,
            if_elim (λ (g : FileSystem). g path ≡ some bytes) calls.removes
                (put files calls.temporary none) files (λ r. rw apart there) (λ r. there),
            if_elim (λ (g : FileSystem). g calls.temporary ≡ none) calls.removes
                (put files calls.temporary none) files (λ r. rw self refl) (λ r. gone),
          ))
          (λ e. fails-Delivers files system_error)

    moved :
        (files : FileSystem) (bytes : List ℕ)
        → files calls.temporary ≡ some bytes
        → put (put files path (files calls.temporary)) calls.temporary none path ≡ some bytes
    moved files bytes held = rw (apart, named) held

    replace-Delivers :
        (files : FileSystem) (bytes : List ℕ)
        → IsSnapshot platform text m kernel calls index before path overwrite bytes
        → files calls.temporary ≡ some bytes
        → Delivers files (replace platform text m kernel calls files path)
    unfolding replace
    replace-Delivers files bytes whole held =
        let renamed = put (put files path (files calls.temporary)) calls.temporary none in
        if_elim (Delivers files) (not calls.renames) _ _ (λ e. fails-Delivers files system_error)
          (λ e. synced-Delivers renamed bytes whole (moved files bytes held) (rw self refl))

    link_new-Delivers :
        (files : FileSystem) (bytes : List ℕ)
        → IsSnapshot platform text m kernel calls index before path overwrite bytes
        → files calls.temporary ≡ some bytes
        → Delivers files (link_new platform text m kernel calls files path)
    unfolding link_new
    link_new-Delivers files bytes whole held =
        let linked = put files path (files calls.temporary) in
        let unlinked = put linked calls.temporary none in
        if_elim (Delivers files) (not calls.links || is_some (files path)) _ _
          (λ e. fails-Delivers files system_error)
          (λ e.
            if_elim (λ (run : Run). Delivers files (visit linked run)) calls.unlinks _ _
              (λ u. synced-Delivers unlinked bytes whole (moved files bytes held) (rw self refl))
              (λ u. fails-Delivers linked system_error))

    install-Delivers :
        (files : FileSystem) (bytes : List ℕ)
        → IsSnapshot platform text m kernel calls index before path overwrite bytes
        → files calls.temporary ≡ some bytes
        → Delivers files (install platform text m kernel calls files path overwrite)
    unfolding install
    install-Delivers files bytes whole held =
        if_elim (Delivers files) (not calls.syncs_file) _ _ (λ e. fails-Delivers files system_error)
          (λ e.
            if_elim (Delivers files) overwrite _ _ (λ o. replace-Delivers files bytes whole held)
              (λ o. link_new-Delivers files bytes whole held))

    verify-Delivers :
        (files : FileSystem) (bytes : List ℕ)
        → save platform text calls.disk index ≡ ok bytes
        → files calls.temporary ≡ some bytes
        → Delivers files (verify platform text m kernel calls index files path overwrite)
    unfolding verify
    verify-Delivers files bytes saved held =
        elim (Result-cases (load platform text m (files calls.temporary) kernel)) [
          | inl (verified, e) ↦
              rw (e, verify)
                (if_elim (Delivers files) (differs platform text m kernel calls verified index) _ _
                  (λ d. fails-Delivers files verification_failed)
                  (λ d. install-Delivers files bytes (saved, (verified, rw (← held) e, d)) held))
          | inr (x, e) ↦ rw (e, verify) (fails-Delivers files x)
        ]

    writes_whole :
        (files : FileSystem) (bytes : List ℕ)
        → save platform text calls.disk index ≡ ok bytes
        → write_temporary platform text m kernel calls index files path overwrite
          ≡ visit (put files calls.temporary (some bytes)) (
              verify platform text m kernel calls index
                (put files calls.temporary (some bytes))
                path
                overwrite)
    unfolding write_temporary
    writes_whole files bytes e = rw (e, write_temporary)

    writes_torn :
        (files : FileSystem) (x : Error)
        → save platform text calls.disk index ≡ err x
        → write_temporary platform text m kernel calls index files path overwrite
          ≡ visit (put files calls.temporary (some calls.partial)) (
              clean platform text m kernel calls
                (put files calls.temporary (some calls.partial))
                (err x))
    unfolding write_temporary
    writes_torn files x e = rw (e, write_temporary)

    write-Delivers :
        (files : FileSystem)
        → Delivers files (write_temporary platform text m kernel calls index files path overwrite)
    unfolding write_temporary
    write-Delivers files = elim (Result-cases (save platform text calls.disk index)) [
      | inl (bytes, e) ↦
          subst (Delivers files) (sym (writes_whole files bytes e))
            (verify-Delivers (put files calls.temporary (some bytes)) bytes e (rw self refl))
      | inr (x, e) ↦
          subst (Delivers files) (sym (writes_torn files x e))
            (fails-Delivers (put files calls.temporary (some calls.partial)) x)
    ]

    -- A publication that returns has left the whole snapshot under the destination, read back with
    -- the size and the edges of the index, and no temporary file. The destination is not the
    -- temporary name.
    pub publish_delivers :
        (publish_hnsw_index platform text m kernel calls index before path overwrite).result ≡ ok tt
        → (bytes : List ℕ) × IsSnapshot platform text m kernel calls index before path overwrite
            bytes
          × (final before
                (publish_hnsw_index platform text m kernel calls index before path overwrite).states
                path
              ≡ some bytes)
          × (final before
                (publish_hnsw_index platform text m kernel calls index before path overwrite).states
                calls.temporary
              ≡ none)
    unfolding publish_hnsw_index
    publish_delivers =
        if_elim (Delivers before) (names_no_file path) _ _ (λ e h. cc)
          (λ e.
            if_elim (Delivers before) (not calls.creates) _ _ (λ f h. cc)
              (λ f. write-Delivers (put before calls.temporary (some []))))
