-- ===== src/Ipam/Checkpoint/Files.antt =====
-- Save and Load of CheckpointManager (pkg/ipam/checkpoint.go) on a file system whose calls do what
-- package os documents: the temporary file is the only one that a failed Save changes.
use coordino.Base.{
  ◌≡◌, refl, sym, ap, ◌∙◌, ◌≢◌, ◌⊎◌, inl, inr, arith, ◌++◌, Option, none, some, Bytes, bytes, ok,
  length, length-append, Option-cases, Result-cases,
}
use coordino.Ipam.Checkpoint.{
  Checkpoint, FileSystem, Codec, tmp_path, rename_into_place, save, load,
}

-- Whatever a call returns, the files that it does not name read as before; a write that succeeds
-- is read back; a rename that succeeds moves the content, and one that fails moves nothing.
pub record Lawful (F : FileSystem) : Type 0 where
  pub reads_written :
      (s : F.State) (p c : Bytes)
      → (F.write_file s p c).1 ≡ none
      → F.read_file (F.write_file s p c).0 p ≡ ok c
  pub write_keeps :
      (s : F.State) (p q c : Bytes) → p ≢ q → F.read_file (F.write_file s p c).0 q ≡ F.read_file s q
  pub reads_renamed :
      (s : F.State) (p q : Bytes)
      → (F.rename s p q).1 ≡ none
      → F.read_file (F.rename s p q).0 q ≡ F.read_file s p
  pub rename_fails :
      (s : F.State) (p q e : Bytes)
      → (F.rename s p q).1 ≡ some e
      → F.read_file (F.rename s p q).0 q ≡ F.read_file s q

tmp_path_ne : (path : Bytes) → tmp_path path ≢ path
tmp_path_ne path e =
    omega (arith, sym (length-append path (bytes ".tmp")) ∙ ap (λ (x : Bytes). length x) e)

module _ (F : FileSystem) (J : Codec) (path : Bytes) (lawful : Lawful F) where
  -- What a call of `Save` leaves at the path.
  abbrev pub Left : Checkpoint → F.State → F.State × Option Bytes → Type 0
  Left c s r =
      ((r.1 ≡ none) × (load F J path r.0 ≡ ok c))
      ⊎ ((e : Bytes) × (r.1 ≡ some e) × (F.read_file r.0 path ≡ F.read_file s path))

  rename_into_place-Left :
      (c : Checkpoint) (content : Bytes) (s t : F.State)
      → J.unmarshal content ≡ ok c
      → F.read_file t (tmp_path path) ≡ ok content
      → F.read_file t path ≡ F.read_file s path
      → Left c s (rename_into_place F J path t)
  unfolding rename_into_place load
  rename_into_place-Left c content s t parsed written same =
      let r = F.rename t (tmp_path path) path in
      elim (Option-cases r.1) [
        | inl fine ↦
            let at_path : F.read_file r.0 path ≡ ok content =
              lawful.reads_renamed t (tmp_path path) path fine ∙ written in
            inl (
              rw (fine, rename_into_place) refl,
              rw (fine, at_path, parsed, rename_into_place, load) refl,
            )
        | inr (e, failed) ↦ inr (
          bytes "failed to rename temp checkpoint file: " ++ e,
          rw (failed, rename_into_place) refl,
          rw (failed, rename_into_place)
              (lawful.rename_fails t (tmp_path path) path e failed ∙ same),
        )
      ]

  -- On a file system whose writes are read back and whose renames move the content or change
  -- nothing, and a codec that reads back what it wrote of the checkpoint: a Save that returns no
  -- error leaves the checkpoint for Load, and one that returns an error leaves the checkpoint file
  -- as it was.
  pub load-save :
      (c : Checkpoint) (s : F.State)
      → ((content : Bytes) → J.marshal c ≡ ok content → J.unmarshal content ≡ ok c)
      → Left c s (save F J path c s)
  unfolding save
  load-save c s round_trip = elim (Result-cases (J.marshal c)) [
    | inl (e, failed) ↦ inr (
      bytes "failed to marshal checkpoint: " ++ e,
      rw (failed, save) refl,
      rw (failed, save) refl,
    )
    | inr (content, made) ↦
        let r = F.write_file s (tmp_path path) content in
        let same : F.read_file r.0 path ≡ F.read_file s path =
          lawful.write_keeps s (tmp_path path) path content (tmp_path_ne path) in
        elim (Option-cases r.1) [
          | inl fine ↦
              rw (made, save)
                (rw (fine, save)
                  (rename_into_place-Left c content s r.0 (round_trip content made)
                    (lawful.reads_written s (tmp_path path) content fine) same))
          | inr (e, failed) ↦ inr (
            bytes "failed to write temp checkpoint file: " ++ e,
            rw (made, failed, save) refl,
            rw (made, failed, save) same,
          )
        ]
  ]
