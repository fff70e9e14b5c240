-- ===== src/HnswIndexPublish/Atomic.antt =====
-- Whatever fails, and wherever the process stops: what other readers of the directory see.
use Prim.Native.String.{String}
use text.Mathlib.Text.{◌==◌ as str_eq}
use text.Mathlib.TextPositions.{eq_refl}
use fast_vector.Prelude.{
  ℕ, ◌≡◌, ◌⊎◌, inl, inr, refl, Bool, true, false, not, ◌||◌, List, [], Option, none, some, is_some,
  All, if_elim, sym, ◌∙◌, verification_failed, Result, ok, err, arith, Result-cases, system_error,
}
use fast_vector.Distance.{Machine, DotProductKernel}
use fast_vector.HnswIndex.{Platform, HnswIndex}
use fast_vector.HnswIndexIo.Save.{RandomText, save}
use fast_vector.HnswIndexIo.Load.{load}
use fast_vector.HnswIndexPublish.{
  FileSystem, put, Calls, Run, clean, sync_parent, replace, link_new, install, differs, verify,
  write_temporary, publish_hnsw_index, names_no_file,
}

module _ (platform : Platform) (text : RandomText platform) (m : Machine)
    (kernel : DotProductKernel) (calls : Calls) (index : HnswIndex platform) (before : FileSystem)
    (path : String) (overwrite : Bool) where
  -- The bytes of a snapshot of the index that has been read back.
  abbrev pub IsSnapshot : List ℕ → Type 0
  IsSnapshot bytes =
      (save platform text calls.disk index ≡ ok bytes)
      × ((verified : HnswIndex platform) × (load platform text m (some bytes) kernel ≡ ok verified)
          × (differs platform text m kernel calls verified index ≡ false))

  -- The destination is as before or a whole snapshot, and it is as before if a file was there and
  -- may not be overwritten; no other file but the temporary one has changed.
  pub record IsIntact (files : FileSystem) : Type 0 where
    pub destination :
        (files path ≡ before path)
        ⊎ ((bytes : List ℕ) × (files path ≡ some bytes)
            × IsSnapshot bytes
            × ((overwrite ≡ true) ⊎ (before path ≡ none)))
    pub others :
        (q : String) → str_eq q path ≡ false → str_eq q calls.temporary ≡ false → files q ≡ before q

  module _ (apart : str_eq path calls.temporary ≡ false) where
    named : str_eq path path ≡ true
    named = eq_refl path

    self : str_eq calls.temporary calls.temporary ≡ true
    self = eq_refl calls.temporary

    temporary_only :
        (files : FileSystem) (content : Option (List ℕ))
        → IsIntact files
        → IsIntact (put files calls.temporary content)
    temporary_only files content k = record {
      destination = rw apart k.destination;
      others = λ q p t. rw t (k.others q p t);
    }

    clean-All :
        (files : FileSystem) (r : Result (Unit {0}))
        → IsIntact files
        → All IsIntact (clean platform text m kernel calls files r).states
    unfolding clean
    clean-All files r k = (
      if_elim IsIntact calls.removes (put files calls.temporary none) files
          (λ e. temporary_only files none k) (λ e. k),
      tt,
    )

    -- What a run of a stage promises.
    abbrev RunsIntact : Run → Type 0
    RunsIntact run = All IsIntact run.states

    sync_parent-All :
        (files : FileSystem)
        → IsIntact files
        → RunsIntact (sync_parent platform text m kernel calls files)
    unfolding sync_parent
    sync_parent-All files k =
        if_elim RunsIntact calls.syncs_parent _ _ (λ e. clean-All files (ok tt) k)
          (λ e. clean-All files (err system_error) k)

    -- The destination takes the snapshot that the temporary file has.
    installed :
        (files : FileSystem) (bytes : List ℕ)
        → IsIntact files
        → files calls.temporary ≡ some bytes
        → IsSnapshot bytes
        → (overwrite ≡ true) ⊎ (before path ≡ none)
        → IsIntact (put files path (files calls.temporary))
    installed files bytes k held whole may = record {
      destination = inr (bytes, rw (named, held) refl, whole, may);
      others = λ q p t. rw p (k.others q p t);
    }

    replace-All :
        (files : FileSystem) (bytes : List ℕ)
        → IsIntact files
        → files calls.temporary ≡ some bytes
        → IsSnapshot bytes
        → overwrite ≡ true
        → RunsIntact (replace platform text m kernel calls files path)
    unfolding replace
    replace-All files bytes k held whole may =
        let renamed = put (put files path (files calls.temporary)) calls.temporary none in
        let good =
          temporary_only (put files path (files calls.temporary)) none
            (installed files bytes k held whole (inl may)) in
        if_elim RunsIntact (not calls.renames) _ _ (λ e. clean-All files (err system_error) k)
          (λ e. (good, sync_parent-All renamed good))

    link_new-All :
        (files : FileSystem) (bytes : List ℕ)
        → IsIntact files
        → files calls.temporary ≡ some bytes
        → IsSnapshot bytes
        → RunsIntact (link_new platform text m kernel calls files path)
    unfolding link_new
    link_new-All files bytes k held whole =
        if_elim RunsIntact (not calls.links || is_some (files path)) _ _
          (λ e. clean-All files (err system_error) k)
          (λ e.
            let absent : files path ≡ none = ground arith in
            let may : (overwrite ≡ true) ⊎ (before path ≡ none) = absent_before files k absent in
            let linked = put files path (files calls.temporary) in
            let unlinked = put linked calls.temporary none in
            let good = installed files bytes k held whole may in
            let clear = temporary_only linked none good in
            (
              good,
              if_elim RunsIntact calls.unlinks _ _ (λ u. (clear, sync_parent-All unlinked clear))
                  (λ u. clean-All linked (err system_error) good),
            ))
      where
        absent_before :
            (files : FileSystem)
            → IsIntact files
            → files path ≡ none
            → (overwrite ≡ true) ⊎ (before path ≡ none)
        absent_before files k absent = elim k.destination [
          | inl same ↦ inr (sym same ∙ absent)
          | inr there ↦ there.3
        ]

    install-All :
        (files : FileSystem) (bytes : List ℕ)
        → IsIntact files
        → files calls.temporary ≡ some bytes
        → IsSnapshot bytes
        → RunsIntact (install platform text m kernel calls files path overwrite)
    unfolding install
    install-All files bytes k held whole =
        if_elim RunsIntact (not calls.syncs_file) _ _ (λ e. clean-All files (err system_error) k)
          (λ e.
            if_elim RunsIntact overwrite _ _ (λ may. replace-All files bytes k held whole may)
              (λ fresh. link_new-All files bytes k held whole))

    verify-All :
        (files : FileSystem) (bytes : List ℕ)
        → IsIntact files
        → files calls.temporary ≡ some bytes
        → save platform text calls.disk index ≡ ok bytes
        → RunsIntact (verify platform text m kernel calls index files path overwrite)
    unfolding verify
    verify-All files bytes k held saved =
        elim (Result-cases (load platform text m (files calls.temporary) kernel)) [
          | inl (verified, e) ↦
              rw (e, verify)
                (if_elim RunsIntact (differs platform text m kernel calls verified index) _ _
                  (λ d. clean-All files (err verification_failed) k)
                  (λ d. install-All files bytes k held (saved, (verified, rw (← held) e, d))))
          | inr (x, e) ↦ rw (e, verify) (clean-All files (err x) k)
        ]

    write-All :
        (files : FileSystem)
        → IsIntact files
        → RunsIntact (write_temporary platform text m kernel calls index files path overwrite)
    unfolding write_temporary
    write-All files k = elim (Result-cases (save platform text calls.disk index)) [
      | inl (bytes, e) ↦
          let written = temporary_only files (some bytes) k in
          rw (e, write_temporary)
            (
              written,
              verify-All (put files calls.temporary (some bytes)) bytes written (rw self refl) e,
            )
      | inr (x, e) ↦
          let torn = temporary_only files (some calls.partial) k in
          rw (e, write_temporary)
            (torn, clean-All (put files calls.temporary (some calls.partial)) (err x) torn)
    ]

    -- In every state of a publication, wherever it fails or stops, the destination holds what it
    -- held before or the whole snapshot, which has been read back and has the size and the edges
    -- of the index; a file that was there is replaced only with overwrite; and no file but the
    -- destination and the temporary one changes. The destination is not the temporary name.
    pub publish-All :
        All IsIntact
          (publish_hnsw_index platform text m kernel calls index before path overwrite).states
    unfolding publish_hnsw_index
    publish-All =
        let same : IsIntact before = record { destination = inl refl; others = λ q p t. refl } in
        let created = temporary_only before (some []) same in
        if_elim RunsIntact (names_no_file path) _ _ (λ e. tt)
          (λ e.
            if_elim RunsIntact (not calls.creates) _ _ (λ f. tt)
              (λ f. (created, write-All (put before calls.temporary (some [])) created)))
