-- ===== src/Fs/Tree/Api.antt =====
-- The operations on paths of FS5 (s5_fs/src/api.rs) and how an actor does them (s5_fs/src/actor.rs,
-- PathOp). The enqueueing of file_put is that of file_put_sync, whose answer it does not wait for.
use s5_rs.Base.{ℕ, Bytes, Bool, Option, none, some, if◌then◌else◌, is_some, bytes_ord}
use s5_rs.BTreeMap
use s5_rs.Fs.Dir.{FileRef, is_tombstone, from_deleted}
use s5_rs.Fs.CreateDir.{create_dir_at}
use s5_rs.Fs.Tree.{LocalState, Tree, actor, Children, no_children, marked, LocalOp, path_op}
use s5_rs.Fs.Tree.Promotion.{DirCodec, check_auto_promote, open_dir}

-- A `Task`: what becomes of the entry, and the answer.
abbrev pub Task : Type 0 → Type 0
Task R = Option FileRef → Option FileRef × R

-- What `file_get` answers, and the entry that `file_delete` leaves.
abbrev pub unless_tombstone : Option (Option FileRef) → Option FileRef
unless_tombstone none = none
unless_tombstone (some none) = none
unless_tombstone (some (some f)) = if is_tombstone f then none else some f

abbrev pub deleted_entry : ℕ → ℕ → Option FileRef → Option FileRef
deleted_entry s ns none = none
deleted_entry s ns (some current) = some (from_deleted current s ns)

module _ (codec : DirCodec) where
  -- After a task: a removed entry, or the entry put back and its prefix promoted.
  unfoldable pub put_back :
      {R : Type 0} → LocalState → Children → Bytes → Option FileRef → R → Tree × Option R
  put_back a cs p none answer = (actor (marked a) cs, some answer)
  put_back a cs p (some f) answer =
      let b = record a { state = record a.state { files = BTreeMap.insert a.state.files p f } } in
      let r = check_auto_promote codec b cs p in
      (actor (if r.1 then marked r.0.0 else r.0.0) r.0.1, some answer)

  -- `ActorMessageOp::FileOp`.
  unfoldable pub file_op : {R : Type 0} → Task R → LocalOp R
  file_op task a cs p =
      let r = task (BTreeMap.get a.state.files p) in
      put_back (record a { state = record a.state { files = BTreeMap.remove a.state.files p } }) cs
        p r.0 r.1

  -- `ActorMessageOp::CreateDir`.
  unfoldable pub create_dir_op : LocalOp (Unit {0})
  create_dir_op a cs p =
      let r = create_dir_at (codec.build_child_dir_ref p) a.state p in
      elim r.1 [
        | none ↦ (actor a cs, some tt)
        | some s ↦
            let opened = open_dir codec (record a { state = r.0 }) cs p s no_children in
            (actor (marked opened.0) opened.1, some tt)
      ]

  module _ (xxh3_64 : Bytes → ℕ) where
    -- `DirActorHandle::execute`.
    abbrev pub execute : {R : Type 0} → Tree → Bytes → Task R → Tree × Option R
    execute t p task = path_op xxh3_64 (file_op task) t p

    unfoldable pub create_dir : Tree → Bytes → Tree × Option (Unit {0})
    create_dir t p = path_op xxh3_64 create_dir_op t p

    unfoldable pub file_put_sync : Tree → Bytes → FileRef → Tree × Option (Unit {0})
    file_put_sync t p f = execute t p (λ value. (some f, tt))

    unfoldable pub file_get : Tree → Bytes → Tree × Option FileRef
    file_get t p = let r = execute t p (λ value. (value, value)) in (r.0, unless_tombstone r.1)

    -- `file_delete` at a time in seconds and nanoseconds.
    unfoldable pub file_delete : Tree → Bytes → ℕ → ℕ → Tree × Option (Unit {0})
    file_delete t p s ns = execute t p (λ value. (deleted_entry s ns value, tt))

    unfoldable pub file_exists : Tree → Bytes → Tree × Bool
    file_exists t p = let r = file_get t p in (r.0, is_some r.1)
