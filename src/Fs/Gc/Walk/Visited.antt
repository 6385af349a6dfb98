-- ===== src/Fs/Gc/Walk/Visited.antt =====
-- What the inner loop of collect_fs_reachable_hashes (s5_fs/src/gc.rs) visits and queues.
use s5_rs.Base.{
  ℕ, suc, ◌+◌, ◌≤◌, ◌≡◌, refl, ap, sym, ◌∙◌, subst, Bytes, true, false, not, ◌||◌, Option, none,
  some, List, [], ◌∷◌, ◌++◌, length, length-append, keep, ◌⊎◌, inl, inr, is_same, is_same_eq,
  is_same_refl, bytes_ord, arith, Bool-cases,
}
use s5_rs.BTreeMap
use s5_rs.BTreeMap.{contains_key, values, get-insert}
use s5_rs.Stream.{IsArray}
use s5_rs.Store.{Store}
use s5_rs.Blob.Paths.{HashCodec}
use s5_rs.Fs.Dir.{DirV1}
use s5_rs.Fs.CreateDir.Extract.{among}
use s5_rs.Fs.Gc.{HashSet}
use s5_rs.Fs.Gc.Walk.{Link, links, load_dir, push_loaded, drain}

-- Membership.
abbrev pub Has : {A : Type 0} → A → List A → Type 0
Has a [] = ⊥
Has a (x ∷ xs) = (a ≡ x) ⊎ Has a xs

pub Has-left : {A : Type 0} (a : A) (xs ys : List A) → Has a xs → Has a (xs ++ ys)
Has-left a (x ∷ xs) ys (inl e) = inl e
Has-left a (x ∷ xs) ys (inr h) = inr (Has-left a xs ys h)
Has-left a [] ys h = absurd h

pub Has-right : {A : Type 0} (a : A) (xs ys : List A) → Has a ys → Has a (xs ++ ys)
Has-right a [] ys h = h
Has-right a (x ∷ xs) ys h = inr (Has-right a xs ys h)

pub Has-split : {A : Type 0} (a : A) (xs ys : List A) → Has a (xs ++ ys) → Has a xs ⊎ Has a ys
Has-split a [] ys h = inr h
Has-split a (x ∷ xs) ys (inl e) = inl (inl e)
Has-split a (x ∷ xs) ys (inr h) = elim (Has-split a xs ys h) [ inl l ↦ inl (inr l) | inr r ↦ inr r ]

contains-insert :
    (m : HashSet) (h k : Bytes)
    → contains_key (BTreeMap.insert m h tt) k ≡ (is_same h k || contains_key m k)
contains-insert m h k = ground (arith, get-insert m h k tt)

-- How many of some hashes were not visited.
abbrev pub unseen : List Bytes → HashSet → ℕ
unseen known visited = length (keep (λ h. not (contains_key visited h)) known)

unseen-insert-le :
    (known : List Bytes) (visited : HashSet) (h : Bytes)
    → unseen known (BTreeMap.insert visited h tt) ≤ unseen known visited
unfolding keep
unseen-insert-le [] visited h = omega arith
unseen-insert-le (k ∷ known) visited h =
    ground (arith, contains-insert visited h k, unseen-insert-le known visited h)

unseen-insert :
    (known : List Bytes) (visited : HashSet) (h : Bytes)
    → among h known ≡ true
    → contains_key visited h ≡ false
    → suc (unseen known (BTreeMap.insert visited h tt)) ≤ unseen known visited
unfolding keep among
unseen-insert [] visited h a b = absurd (ground (arith, a))
unseen-insert (k ∷ known) visited h a b = elim (Bool-cases (is_same k h)) [
  | inl e ↦
      let same : k ≡ h = is_same_eq k h e in
      let old : contains_key visited k ≡ false = ap (contains_key visited) same ∙ b in
      let new : contains_key (BTreeMap.insert visited h tt) k ≡ true =
        contains-insert visited h k
        ∙ ap (λ x. is_same h x || contains_key visited x) same
        ∙ ap (λ x. x || contains_key visited h) (is_same_refl h) in
      ground (arith, old, new, unseen-insert-le known visited h)
  | inr e ↦
      let rest = unseen-insert known visited h (ground (arith, a, e)) b in
      ground (arith, contains-insert visited h k, rest)
]

-- Every link has a hash of 32 bytes and carries the key that belongs to it.
abbrev pub IsKeyed : (Bytes → Option Bytes) → List Link → Type 0
IsKeyed key_of ls = (l : Link) → Has l ls → (l.1 ≡ key_of l.0) × IsArray 32 l.0

abbrev pub AreKeyed : (Bytes → Option Bytes) → List DirV1 → Type 0
AreKeyed key_of dirs = (d : DirV1) → Has d dirs → IsKeyed key_of (links d)

module _ {S : Type 0} (c : HashCodec) (api : Store S) (meta_store : S)
    (decrypt_dir_bytes : Bytes → Option Bytes → Option Bytes) (from_bytes : Bytes → Option DirV1)
    (key_of : Bytes → Option Bytes) (known : List Bytes) where
  abbrev load : Bytes → Option Bytes → Option DirV1
  load h key = load_dir c api meta_store decrypt_dir_bytes from_bytes h key

  -- Directories that can be loaded are known and carry the keys of their links.
  pub record IsArchive : Type 0 where
    pub loads_known :
        (h : Bytes) (key : Option Bytes) (d : DirV1)
        → IsArray 32 h
        → load h key ≡ some d
        → among h known ≡ true
    pub loads_keyed :
        (h : Bytes) (key : Option Bytes) (d : DirV1)
        → load h key ≡ some d
        → IsKeyed key_of (links d)

  -- A directory whose hash was visited waits in the queue or has a property.
  abbrev pub Seen : (DirV1 → Type 0) → HashSet → List DirV1 → Type 0
  Seen P visited dirs =
      (h : Bytes) (d : DirV1)
      → contains_key visited h ≡ true
      → load h (key_of h) ≡ some d
      → Has d dirs ⊎ P d

  -- What draining a queue does.
  pub record Drained (P : DirV1 → Type 0) (q : List Link) (visited : HashSet) (dirs : List DirV1)
      (r : HashSet × List DirV1) : Type 0 where
    pub grows : (h : Bytes) → contains_key visited h ≡ true → contains_key r.0 h ≡ true
    pub visits : (l : Link) → Has l q → contains_key r.0 l.0 ≡ true
    pub still : (d : DirV1) → Has d dirs → Has d r.1
    pub seen : Seen P visited dirs → Seen P r.0 r.1
    pub keyed : AreKeyed key_of dirs → AreKeyed key_of r.1
    pub smaller : length r.1 + unseen known r.0 ≤ length dirs + unseen known visited

  again :
      (P : DirV1 → Type 0) (h : Bytes) (key : Option Bytes) (q : List Link) (visited : HashSet)
      (dirs : List DirV1) (r : HashSet × List DirV1)
      → contains_key visited h ≡ true
      → Drained P q visited dirs r
      → Drained P ((h, key) ∷ q) visited dirs r
  again P h key q visited dirs r old d = record {
    grows = d.grows;
    visits = λ l has. elim has [
      | inl e ↦ d.grows l.0 (ap (λ x. contains_key visited x.0) e ∙ old)
      | inr rest ↦ d.visits l rest
    ];
    still = d.still;
    seen = d.seen;
    keyed = d.keyed;
    smaller = d.smaller;
  }

  still-push :
      (o : Option DirV1) (dirs : List DirV1) (d : DirV1) → Has d dirs → Has d (push_loaded o dirs)
  still-push none dirs d has = has
  still-push (some e) dirs d has = Has-left d dirs (e ∷ []) has

  keyed-push :
      (o : Option DirV1) (dirs : List DirV1)
      → ((d : DirV1) → o ≡ some d → IsKeyed key_of (links d))
      → AreKeyed key_of dirs
      → AreKeyed key_of (push_loaded o dirs)
  keyed-push none dirs loaded keyed = keyed
  keyed-push (some e) dirs loaded keyed = λ d has. elim (Has-split d dirs (e ∷ []) has) [
    | inl old ↦ keyed d old
    | inr (inl same) ↦ subst (λ x. IsKeyed key_of (links x)) (sym same) (loaded e refl)
    | inr (inr none_left) ↦ elim none_left [ ]
  ]

  smaller-push :
      (o : Option DirV1) (dirs : List DirV1) (visited : HashSet) (h : Bytes)
      → ((d : DirV1) → o ≡ some d → among h known ≡ true)
      → contains_key visited h ≡ false
      → length (push_loaded o dirs) + unseen known (BTreeMap.insert visited h tt)
        ≤ length dirs + unseen known visited
  smaller-push none dirs visited h loaded new =
      let le = unseen-insert-le known visited h in omega (arith, le)
  smaller-push (some d) dirs visited h loaded new =
      let lt = unseen-insert known visited h (loaded d refl) new in
      omega (arith, lt, length-append dirs (d ∷ []))

  first_time :
      (P : DirV1 → Type 0) (h : Bytes) (key : Option Bytes) (q : List Link) (visited : HashSet)
      (dirs : List DirV1) (r : HashSet × List DirV1)
      → IsArchive
      → (key ≡ key_of h) × IsArray 32 h
      → contains_key visited h ≡ false
      → Drained P q (BTreeMap.insert visited h tt) (push_loaded (load h key) dirs) r
      → Drained P ((h, key) ∷ q) visited dirs r
  first_time P h key q visited dirs r archive own new d = record {
    grows = λ x old. d.grows x (ground (arith, contains-insert visited h x, old));
    visits = λ l has. elim has [
      | inl e ↦ d.grows l.0 (
          ap (λ x. contains_key (BTreeMap.insert visited h tt) x.0) e
          ∙ contains-insert visited h h
          ∙ ap (λ x. x || contains_key visited h) (is_same_refl h))
      | inr rest ↦ d.visits l rest
    ];
    still = λ x has. d.still x (still-push (load h key) dirs x has);
    seen = λ before. d.seen (λ x e visited' loaded. elim (Bool-cases (is_same h x)) [
      | inl same ↦
          let o : load h key ≡ some e =
            ap (load h) own.0 ∙ ap (λ y. load y (key_of y)) (is_same_eq h x same) ∙ loaded in
          inl
            (subst (λ y. Has e (push_loaded y dirs)) (sym o) (Has-right e dirs (e ∷ []) (inl refl)))
      | inr other ↦
          let old : contains_key visited x ≡ true =
            ground (arith, contains-insert visited h x, other, visited') in
          elim (before x e old loaded) [
            | inl waits ↦ inl (still-push (load h key) dirs e waits)
            | inr p ↦ inr p
          ]
    ]);
    keyed = λ before. d.keyed (keyed-push (load h key) dirs (archive.loads_keyed h key) before);
    smaller =
        let step =
          smaller-push (load h key) dirs visited h (λ e. archive.loads_known h key e own.1) new in
        let rest = d.smaller in omega (arith, step, rest);
  }

  pub drain-Drained :
      (P : DirV1 → Type 0) (q : List Link) (visited : HashSet) (dirs : List DirV1)
      → IsArchive
      → IsKeyed key_of q
      → Drained P q visited dirs
          (drain c api meta_store decrypt_dir_bytes from_bytes q visited dirs)
  unfolding drain
  drain-Drained P [] visited dirs archive keyed = record {
    grows = λ h e. e;
    visits = λ l has. absurd has;
    still = λ d has. has;
    seen = λ s. s;
    keyed = λ k. k;
    smaller = omega arith;
  }
  drain-Drained P ((h, key) ∷ q) visited dirs archive keyed =
      let tail : IsKeyed key_of q = λ l has. keyed l (inr has) in
      let next = BTreeMap.insert visited h tt in
      elim (Bool-cases (contains_key visited h)) [
        | inl old ↦ rw old (
            again P h key q visited dirs
              (drain c api meta_store decrypt_dir_bytes from_bytes q visited dirs) old
              (drain-Drained P q visited dirs archive tail))
        | inr new ↦ rw new (
            first_time P h key q visited dirs
              (drain c api meta_store decrypt_dir_bytes from_bytes q next
                (push_loaded (load h key) dirs))
              archive (keyed (h, key) (inl refl)) new
              (drain-Drained P q next (push_loaded (load h key) dirs) archive tail))
      ]
