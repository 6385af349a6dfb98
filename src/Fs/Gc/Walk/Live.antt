-- ===== src/Fs/Gc/Walk/Live.antt =====
-- The walk of s5_fs/src/gc.rs reaches every directory that links lead to.
use s5_rs.Base.{
  ℕ, zero, suc, ◌+◌, ◌≤◌, ◌≡◌, refl, ap, sym, ◌∙◌, subst, Bytes, true, Option, some, List, [], ◌∷◌,
  ◌++◌, length, keep, ◌⊎◌, inl, inr, ok, ◌>>=◌, bytes_ord, arith,
}
use s5_rs.BTreeMap
use s5_rs.BTreeMap.{contains_key, values}
use s5_rs.Store.{Store}
use s5_rs.Blob.Paths.{HashCodec}
use s5_rs.Fs.Dir.{DirV1}
use s5_rs.Fs.Gc.{HashSet, collect_hashes_from_dir}
use s5_rs.Fs.Gc.Reachable.{any_keeps_alive}
use s5_rs.Fs.Gc.Walk.{
  Link, links, load_dir, drain, traverse, snapshot_links, root_dirs, collect_fs_reachable_hashes,
}
use s5_rs.Fs.Gc.Walk.Visited.{Has, Has-split, unseen, IsKeyed, AreKeyed, IsArchive, drain-Drained}
use s5_rs.Fs.Gc.Walk.Turn.{IsDone, Walked, SeenDone, turn}

module _ {S : Type 0} (c : HashCodec) (api : Store S) (meta_store : S)
    (decrypt_dir_bytes : Bytes → Option Bytes → Option Bytes)
    (from_bytes : Bytes → Option DirV1) where
  abbrev load : Bytes → Option Bytes → Option DirV1
  load h key = load_dir c api meta_store decrypt_dir_bytes from_bytes h key

  -- What the walk can load from the root, some snapshots and the links of what it loaded.
  pub data IsLinked (root : DirV1) (snapshots : List Link) : DirV1 → Type 0 where
    the_root : IsLinked root snapshots root
    snapshot :
        (l : Link) (d : DirV1) → Has l snapshots → load l.0 l.1 ≡ some d → IsLinked root snapshots d
    linked :
        (d e : DirV1) (l : Link)
        → IsLinked root snapshots d
        → Has l (links d)
        → load l.0 l.1 ≡ some e
        → IsLinked root snapshots e

  module _ (key_of : Bytes → Option Bytes) (known : List Bytes)
      (archive : IsArchive c api meta_store decrypt_dir_bytes from_bytes key_of known) where
    abbrev WalksOn : ℕ → Type 0
    WalksOn n =
        (dirs : List DirV1) (visited reachable : HashSet)
        → length dirs + unseen known visited ≤ n
        → AreKeyed key_of dirs
        → SeenDone c api meta_store decrypt_dir_bytes from_bytes key_of known archive visited
            reachable dirs
        → (visited' : HashSet) × (reachable' : HashSet) × (traverse c api meta_store
              decrypt_dir_bytes from_bytes n dirs [] visited reachable
            ≡ ok reachable')
          × Walked c api meta_store decrypt_dir_bytes from_bytes key_of known archive dirs visited
              reachable visited' reachable'

    walk_from :
        (n : ℕ) (dir : DirV1) (dirs : List DirV1) (q : List Link) (visited reachable : HashSet)
        → WalksOn n
        → suc (length dirs) + unseen known visited ≤ suc n
        → AreKeyed key_of (dir ∷ dirs)
        → IsKeyed key_of q
        → SeenDone c api meta_store decrypt_dir_bytes from_bytes key_of known archive visited
            reachable
            (dir ∷ dirs)
        → (visited' : HashSet) × (reachable' : HashSet) × (traverse c api meta_store
              decrypt_dir_bytes from_bytes
              (suc n)
              (dir ∷ dirs)
              q
              visited
              reachable
            ≡ ok reachable')
          × Walked c api meta_store decrypt_dir_bytes from_bytes key_of known archive
              (dir ∷ dirs)
              visited
              reachable
              visited'
              reachable'
          × ((l : Link) → Has l q → contains_key visited' l.0 ≡ true)
    unfolding traverse
    walk_from n dir dirs q visited reachable rest fuel keyed queue_keyed seen =
        let now = collect_hashes_from_dir dir reachable in
        let r = drain c api meta_store decrypt_dir_bytes from_bytes (q ++ links dir) visited dirs in
        let all_keyed : IsKeyed key_of (q ++ links dir) = λ l has.
          elim (Has-split l q (links dir) has) [
            | inl first ↦ queue_keyed l first
            | inr second ↦ keyed dir (inl refl) l second
          ] in
        let drained =
          drain-Drained c api meta_store decrypt_dir_bytes from_bytes key_of known
            (λ d. (d ≡ dir) ⊎ IsDone visited reachable d) (q ++ links dir) visited dirs archive
            all_keyed in
        let smaller = drained.smaller in
        let enough : length r.1 + unseen known r.0 ≤ n = omega (arith, smaller, fuel) in
        let r_keyed = drained.keyed (λ d has. keyed d (inr has)) in
        let (seen_after, back) =
          turn c api meta_store decrypt_dir_bytes from_bytes key_of known archive dir dirs q visited
            reachable r drained seen in
        let (visited', reachable', done, walked) = rest r.1 r.0 now enough r_keyed seen_after in
        let last = back visited' reachable' walked in (visited', reachable', done, last.0, last.1)

    walk_rest : (n : ℕ) → WalksOn n
    unfolding traverse
    walk_rest n [] visited reachable fuel keyed seen = (
      visited,
      reachable,
      refl,
      record {
        grows = λ h e. e;
        later = λ d e. e;
        queued = λ d has. absurd has;
        complete = λ h d old loaded. elim (seen h d old loaded) [
          | inl waits ↦ absurd waits
          | inr done ↦ done
        ];
      },
    )
    walk_rest zero (dir ∷ dirs) visited reachable fuel keyed seen = absurd (omega (arith, fuel))
    walk_rest (suc n) (dir ∷ dirs) visited reachable fuel keyed seen =
        let (visited', reachable', done, walked, none_queued) =
          walk_from n dir dirs [] visited reachable (λ d v r. walk_rest n d v r) fuel keyed
            (λ l has. absurd has) seen in
        (visited', reachable', done, walked)

    unseen-all : (hs : List Bytes) → unseen hs [] ≡ length hs
    unfolding keep BTreeMap.get
    unseen-all [] = refl
    unseen-all (h ∷ hs) = ap suc (unseen-all hs)

    -- A live directory is done where the root and all links that were visited are.
    IsLinked-IsDone :
        (root : DirV1) (snapshots : List Link) (visited reachable : HashSet) (d : DirV1)
        → Walked c api meta_store decrypt_dir_bytes from_bytes key_of known archive
            (root ∷ [])
            []
            []
            visited
            reachable
        → ((l : Link) → Has l snapshots → contains_key visited l.0 ≡ true)
        → IsKeyed key_of (links root)
        → IsKeyed key_of snapshots
        → IsLinked root snapshots d
        → IsDone visited reachable d × IsKeyed key_of (links d)
    IsLinked-IsDone root snapshots visited reachable d walked visits root_keyed keyed the_root =
        (walked.queued root (inl refl), root_keyed)
    IsLinked-IsDone root snapshots visited reachable d walked visits root_keyed keyed
          (snapshot l _ has loaded) =
        (
          walked.complete l.0 d (visits l has) (ap (load l.0) (sym (keyed l has).0) ∙ loaded),
          archive.loads_keyed l.0 l.1 d loaded,
        )
    IsLinked-IsDone root snapshots visited reachable e walked visits root_keyed keyed
          (linked d _ l live has loaded) =
        let (done, d_keyed) =
          IsLinked-IsDone root snapshots visited reachable d walked visits root_keyed keyed live in
        (
          walked.complete l.0 e (done.1 l has) (ap (load l.0) (sym (d_keyed l has).0) ∙ loaded),
          archive.loads_keyed l.0 l.1 e loaded,
        )

    -- The walk ends and collects what the directories that links lead to keep alive.
    pub traverse-IsLinked :
        (n : ℕ) (root : DirV1) (root_file root_key snapshots_file : Option Bytes)
        → root_dirs c api meta_store decrypt_dir_bytes from_bytes root_file root_key
          ≡ ok (root ∷ [])
        → IsKeyed key_of (links root)
        → IsKeyed key_of
            (snapshot_links c api meta_store decrypt_dir_bytes from_bytes snapshots_file root_key)
        → suc (length known) ≤ n
        → (reachable : HashSet) × (collect_fs_reachable_hashes c api meta_store decrypt_dir_bytes
              from_bytes n root_file snapshots_file root_key
            ≡ ok reachable)
          × ((d : DirV1) (h : Bytes)
              → IsLinked root
                  (snapshot_links c api meta_store decrypt_dir_bytes from_bytes snapshots_file
                    root_key)
                  d
              → any_keeps_alive h (values d.files) ≡ true
              → contains_key reachable h ≡ true)
    unfolding collect_fs_reachable_hashes BTreeMap.get
    traverse-IsLinked zero root root_file root_key snapshots_file read root_keyed keyed fuel =
        absurd (omega (arith, fuel))
    traverse-IsLinked (suc n) root root_file root_key snapshots_file read root_keyed keyed fuel =
        let snapshots =
          snapshot_links c api meta_store decrypt_dir_bytes from_bytes snapshots_file root_key in
        let all = unseen-all known in
        let enough : 1 + unseen known [] ≤ suc n = omega (arith, all, fuel) in
        let only_root : AreKeyed key_of (root ∷ []) = λ d has. elim has [
          | inl same ↦ subst (λ x. IsKeyed key_of (links x)) (sym same) root_keyed
          | inr none_left ↦ elim none_left [ ]
        ] in
        let nothing_seen : SeenDone c api meta_store decrypt_dir_bytes from_bytes key_of known
            archive [] [] (root ∷ []) =
          λ h d old loaded. absurd (ground (arith, old)) in
        let (visited, reachable, done, walked, visits) =
          walk_from n root [] snapshots [] [] (walk_rest n) enough only_root keyed nothing_seen in
        (
          reachable,
          ap
                (λ o. do
                  dirs ← o
                  traverse c api meta_store decrypt_dir_bytes from_bytes (suc n) dirs snapshots []
                      [])
                read
              ∙ done,
          λ d h live alive.
              (IsLinked-IsDone root snapshots visited reachable d walked visits root_keyed keyed
                  live).0.0
                h alive,
        )
