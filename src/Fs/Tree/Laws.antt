-- ===== src/Fs/Tree/Laws.antt =====
-- The operations on files of FS5 (s5_fs/src/api.rs): what a read finds after them.
use s5_rs.Base.{
  ℕ, ◌≡◌, refl, ap, sym, ◌∙◌, Bytes, Bool, true, false, Option, none, some, inl, inr, if◌then◌else◌,
  is_some, is_same, bytes_ord, arith, Option-cases,
}
use s5_rs.Fs.Dir.{DirV1, FileRef, is_tombstone, from_deleted}
use s5_rs.Fs.Tree.{Tree, actor, destination}
use s5_rs.Fs.Tree.Promotion.{DirCodec}
use s5_rs.Fs.Tree.Api.{
  Task, file_op, execute, file_put_sync, file_get, file_delete, create_dir, unless_tombstone,
  deleted_entry, create_dir_op,
}
use s5_rs.Fs.Tree.Step.{file_of, file_at}
use s5_rs.Fs.Tree.Optimize.{Stores}
use s5_rs.Fs.Tree.Kin.{Kin}
use s5_rs.Fs.Tree.Reach.{Puts, ClearAt, path_op_lem, path_op-result, path_op-lost}
use s5_rs.Fs.Tree.Tidy.{IsTidy, destination-IsEnd, end_alone, path_op-IsTidy}
use s5_rs.Fs.Tree.Kept.{file_op-Tidy, create_dir_op-Tidy}
use s5_rs.Fs.Tree.Files.{file_op_lem, file_op-result}

module _ (xxh3_64 : Bytes → ℕ) (codec : DirCodec) where
  -- A path that leads to a directory.
  abbrev pub IsReached : Tree → Bytes → Type 0
  IsReached t p = is_some (destination xxh3_64 t p) ≡ true

  abbrev pub IsOpen : Tree → Bytes → Type 0
  IsOpen t q = ClearAt (destination xxh3_64 t q)

  module _ {R : Type 0} (task : Task R) where
    execute-answer :
        (t : Tree) (p : Bytes)
        → IsReached t p
        → (execute codec xxh3_64 t p task).1 ≡ some (task (file_at xxh3_64 t p)).1
    execute-answer t p there = elim (Option-cases (destination xxh3_64 t p)) [
      | inl e ↦ absurd (ground (arith, there, e))
      | inr (r, e) ↦
          path_op-result xxh3_64 (file_op codec task) t p r e
          ∙ file_op-result xxh3_64 codec task r.0 r.1.0 r.1.1
          ∙ sym (ap (λ o. some (task (file_of o)).1) e)
    ]

    execute-files :
        (t : Tree) (p q : Bytes)
        → IsTidy t
        → IsReached t p
        → Stores xxh3_64 codec
        → Kin p q
        → IsOpen t q
        → file_at xxh3_64 (execute codec xxh3_64 t p task).0 q
          ≡ (if is_same p q then (task (file_at xxh3_64 t p)).0 else file_at xxh3_64 t q)
    execute-files t p q tidy there stores kin clear =
        let v = (task (file_at xxh3_64 t p)).0 in
        let puts : Puts xxh3_64 (file_op codec task) v (destination xxh3_64 t p) =
          λ r e x kin' clear'.
            let end = destination-IsEnd xxh3_64 t p r tidy e in
            file_op_lem xxh3_64 codec task r.0 r.1.0 r.1.1 x end.0 (end_alone xxh3_64 r end) stores
              kin' clear'
            ∙ ap
                (λ o.
                  if is_same r.1.1 x
                  then (task (file_of o)).0
                  else file_at xxh3_64 (actor r.0 r.1.0) x)
                (sym e) in
        path_op_lem xxh3_64 (file_op codec task) v t p q there puts kin clear

  -- What a read finds is the entry that the path leads to, unless it is a tombstone.
  pub file_get-file_at :
      (t : Tree) (p : Bytes)
      → (file_get codec xxh3_64 t p).1 ≡ unless_tombstone (some (file_at xxh3_64 t p))
  unfolding file_get
  file_get-file_at t p = elim (Option-cases (destination xxh3_64 t p)) [
    | inl e ↦
        ap unless_tombstone (path_op-lost xxh3_64 (file_op codec (λ value. (value, value))) t p e)
        ∙ sym (ap (λ o. unless_tombstone (some (file_of o))) e)
    | inr (r, e) ↦
        ap unless_tombstone (execute-answer (λ value. (value, value)) t p (ground (arith, e)))
  ]

  -- A read after a task finds what the task made of the entry, or what a read found before.
  read_after :
      {R : Type 0} (task : Task R) (t : Tree) (p q : Bytes)
      → IsTidy t
      → IsReached t p
      → Stores xxh3_64 codec
      → Kin p q
      → IsOpen t q
      → (file_get codec xxh3_64 (execute codec xxh3_64 t p task).0 q).1 ≡ (
          if is_same p q
          then unless_tombstone (some (task (file_at xxh3_64 t p)).0)
          else (file_get codec xxh3_64 t q).1)
  read_after task t p q tidy there stores kin clear =
      file_get-file_at (execute codec xxh3_64 t p task).0 q
      ∙ ap (λ o. unless_tombstone (some o)) (execute-files task t p q tidy there stores kin clear)
      ∙ push (is_same p q) (task (file_at xxh3_64 t p)).0 (file_at xxh3_64 t q)
      ∙ ap (λ o. if is_same p q then unless_tombstone (some (task (file_at xxh3_64 t p)).0) else o)
          (sym (file_get-file_at t q))
    where
      push :
          (b : Bool) (x y : Option FileRef)
          → unless_tombstone (some (if b then x else y))
            ≡ (if b then unless_tombstone (some x) else unless_tombstone (some y))
      push true x y = refl
      push false x y = refl

  -- Where a path leads to a directory of a tidy tree, directories can be stored and no path ends
  -- in a slash, file_put_sync succeeds, and a later file_get finds the file at the path (none if
  -- it is a tombstone) and at another path what it found before, unless files lie below that path,
  -- the new one included; also when the write promotes a prefix to a child directory.
  pub file_put_sync-file_get :
      (t : Tree) (p q : Bytes) (f : FileRef)
      → IsTidy t
      → IsReached t p
      → Stores xxh3_64 codec
      → Kin p q
      → IsOpen t q
      → ((file_put_sync codec xxh3_64 t p f).1 ≡ some tt)
        × ((file_get codec xxh3_64 (file_put_sync codec xxh3_64 t p f).0 q).1 ≡ (
            if is_same p q
            then (if is_tombstone f then none else some f)
            else (file_get codec xxh3_64 t q).1))
  unfolding file_put_sync
  file_put_sync-file_get t p q f tidy there stores kin clear = (
    execute-answer (λ value. (some f, tt)) t p there,
    read_after (λ value. (some f, tt)) t p q tidy there stores kin clear,
  )

  tombstone_hidden :
      (o : Option FileRef) (s ns : ℕ) → unless_tombstone (some (deleted_entry s ns o)) ≡ none
  unfolding is_tombstone from_deleted s5_rs.Fs.Dir.file_ref_type
  tombstone_hidden none s ns = refl
  tombstone_hidden (some f) s ns = refl

  -- Where a path leads to a directory of a tidy tree, directories can be stored and no path ends
  -- in a slash, file_delete succeeds, and a later file_get finds nothing at the path and at
  -- another path what it found before, unless files lie below that path.
  pub file_delete-file_get :
      (t : Tree) (p q : Bytes) (s ns : ℕ)
      → IsTidy t
      → IsReached t p
      → Stores xxh3_64 codec
      → Kin p q
      → IsOpen t q
      → ((file_delete codec xxh3_64 t p s ns).1 ≡ some tt)
        × ((file_get codec xxh3_64 (file_delete codec xxh3_64 t p s ns).0 q).1
            ≡ (if is_same p q then none else (file_get codec xxh3_64 t q).1))
  unfolding file_delete
  file_delete-file_get t p q s ns tidy there stores kin clear = (
    execute-answer (λ value. (deleted_entry s ns value, tt)) t p there,
    read_after (λ value. (deleted_entry s ns value, tt)) t p q tidy there stores kin clear
        ∙ ap (λ o. if is_same p q then o else (file_get codec xxh3_64 t q).1)
            (tombstone_hidden (file_at xxh3_64 t p) s ns),
  )

  execute-IsTidy :
      {R : Type 0} (task : Task R) (t : Tree) (p : Bytes)
      → IsTidy t
      → IsTidy (execute codec xxh3_64 t p task).0
  execute-IsTidy task t p tidy =
      path_op-IsTidy xxh3_64 (file_op codec task) t p
        (λ a cs x end. file_op-Tidy codec task a cs x end.1) tidy

  -- file_put_sync, file_get, file_delete and create_dir keep a tree tidy: actors stand only under
  -- the names of directories.
  pub operations-IsTidy :
      (t : Tree) (p : Bytes) (f : FileRef) (s ns : ℕ)
      → IsTidy t
      → IsTidy (file_put_sync codec xxh3_64 t p f).0
        × IsTidy (file_get codec xxh3_64 t p).0
        × IsTidy (file_delete codec xxh3_64 t p s ns).0
        × IsTidy (create_dir codec xxh3_64 t p).0
  unfolding file_put_sync file_get file_delete create_dir
  operations-IsTidy t p f s ns tidy = (
    execute-IsTidy (λ value. (some f, tt)) t p tidy,
    execute-IsTidy (λ value. (value, value)) t p tidy,
    execute-IsTidy (λ value. (deleted_entry s ns value, tt)) t p tidy,
    path_op-IsTidy xxh3_64 (create_dir_op codec) t p
        (λ a cs x end. create_dir_op-Tidy codec a cs x end.1) tidy,
  )
