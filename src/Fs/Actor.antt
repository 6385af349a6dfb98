-- ===== src/Fs/Actor.antt =====
-- The state of a directory actor (s5_fs/src/actor.rs). A handle to a child actor is a number. The
-- channels, timers and the message that tells the parent that a child is dirty are not modelled.
use s5_rs.Base.{ℕ, ◌+◌, ◌-◌, ◌^◌, min, Bytes, Bool, true, false, Option, none, []}
use s5_rs.BTreeMap.{BTreeMap}
use s5_rs.Fs.Dir.{DirV1, new_dir}

pub record DirActor : Type 0 where
  pub state : DirV1
  pub dirty : Bool
  pub dir_handles : BTreeMap Bytes ℕ
  pub dir_shard_handles : BTreeMap ℕ ℕ
  pub current_hash : Option Bytes
  pub last_serialized_len : ℕ
  pub shard_size_check_ops : ℕ

-- `DirActor::new`.
abbrev pub new_actor : DirActor
new_actor = record {
  state = new_dir;
  dirty = false;
  dir_handles = [];
  dir_shard_handles = [];
  current_hash = none;
  last_serialized_len = 0;
  shard_size_check_ops = 0;
}

-- `mark_as_dirty`, with the saturating count of mutations.
unfoldable pub mark_as_dirty : DirActor → DirActor
mark_as_dirty a = record a {
  shard_size_check_ops = min (a.shard_size_check_ops + 1) (2 ^ 64 - 1);
  dirty = true;
}
