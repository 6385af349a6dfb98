-- ===== src/Fs/Tree/Kin.antt =====
-- Two paths on their way through the directories (s5_fs/src/actor.rs, route_to_child).
use s5_rs.Base.{
  ℕ, ◌≡◌, ◌≢◌, refl, ap, sym, ◌∙◌, subst, Bytes, [], ◌∷◌, ◌++◌, ◌⊎◌, inl, inr, is_same,
  is_same_alike, Option-cases, Bool-cases, bytes_ord, arith, append_assoc, append-nil,
}
use s5_rs.BTreeMap.{contains_key}
use s5_rs.Fs.Dir.{DirV1, DirHeader}
use s5_rs.Fs.CreateDir.{slash_after}
use s5_rs.Fs.Sharding.{shard_bucket_for}
use s5_rs.Fs.Tree.{
  shard_at, DirHandlePath, path, shard, Route, into, first_of, route_from, route_dir,
  route_to_child,
}
use s5_rs.Fs.Tree.Names.{first_of_cases}
use s5_rs.Fs.Tree.Optimize.{below_child}

-- A path that does not end in a slash.
abbrev pub IsPlain : Bytes → Type 0
IsPlain p = (g : Bytes) → p ≢ slash_after g

-- Plain paths of which the first does not lie below the second.
pub record Kin (p q : Bytes) : Type 0 where
  pub first_IsPlain : IsPlain p
  pub second_IsPlain : IsPlain q
  pub not_below : (name : Bytes) → p ≢ slash_after q ++ name

nonempty : (g : Bytes) → [] ≢ slash_after g
nonempty [] = λ e. ground (arith, e)
nonempty (c ∷ g) = λ e. ground (arith, e)

pub empty-IsPlain : IsPlain []
empty-IsPlain = nonempty

not_empty_below : (q name : Bytes) → [] ≢ slash_after q ++ name
not_empty_below [] name = λ e. ground (arith, e)
not_empty_below (c ∷ q) name = λ e. ground (arith, e)

rest-IsPlain : (g rest : Bytes) → IsPlain (slash_after g ++ rest) → IsPlain rest
rest-IsPlain g rest plain h e =
    plain (slash_after g ++ h)
      (ap (λ x. slash_after g ++ x) e ∙ sym (append_assoc (slash_after g) h (47 ∷ [])))

append_cancel : (g x y : Bytes) → g ++ x ≡ g ++ y → x ≡ y
append_cancel [] x y e = e
append_cancel (c ∷ g) x y e = append_cancel g x y (ground (arith, e))

pub name_below : (n rest : Bytes) → n ≢ slash_after n ++ rest
name_below n rest e =
    let split = append_nil_sym n ∙ e ∙ append_assoc n (47 ∷ []) rest in
    ground (arith, append_cancel n [] (47 ∷ rest) split)
  where
    append_nil_sym : (n : Bytes) → n ++ [] ≡ n
    append_nil_sym n = append-nil n

pub slash_alone : (n : Bytes) → slash_after n ++ [] ≡ slash_after n
slash_alone n = append-nil (slash_after n)

-- What is left of a path after its first name.
abbrev pub Parts : Bytes → Bytes → Bytes → Type 0
Parts n p rest = ((p ≡ n) × (rest ≡ [])) ⊎ (p ≡ slash_after n ++ rest)

abbrev pub Follows : Bytes → Bytes → Bytes → Bytes → Type 0
Follows p q p' q' = Kin p' q' × (is_same p' q' ≡ is_same p q)

follow_alone : (n : Bytes) → Follows n n [] []
follow_alone n = (
  record {
    first_IsPlain = empty-IsPlain;
    second_IsPlain = empty-IsPlain;
    not_below = not_empty_below [];
  },
  is_same_alike {K = Bytes} [] [] n n (λ e. refl) (λ e. refl),
)

follow_second :
    (n rest : Bytes) → Kin n (slash_after n ++ rest) → Follows n (slash_after n ++ rest) [] rest
follow_second n rest kin = (
  record {
    first_IsPlain = empty-IsPlain;
    second_IsPlain = rest-IsPlain n rest kin.second_IsPlain;
    not_below = not_empty_below rest;
  },
  is_same_alike {K = Bytes} [] rest n (slash_after n ++ rest)
      (λ e. absurd (kin.second_IsPlain n (ap (λ x. slash_after n ++ x) (sym e) ∙ slash_alone n)))
      (λ e. absurd (name_below n rest e)),
)

follow_first :
    (n rest : Bytes) → Kin (slash_after n ++ rest) n → Follows (slash_after n ++ rest) n rest []
follow_first n rest kin = (
  record {
    first_IsPlain = rest-IsPlain n rest kin.first_IsPlain;
    second_IsPlain = empty-IsPlain;
    not_below = λ name e. kin.not_below (47 ∷ name) (ap (λ x. slash_after n ++ x) e);
  },
  is_same_alike {K = Bytes} rest [] (slash_after n ++ rest) n
      (λ e. absurd (kin.first_IsPlain n (ap (λ x. slash_after n ++ x) e ∙ slash_alone n)))
      (λ e. absurd (name_below n rest (sym e))),
)

follow_both :
    (n p' q' : Bytes)
    → Kin (slash_after n ++ p') (slash_after n ++ q')
    → Follows (slash_after n ++ p') (slash_after n ++ q') p' q'
follow_both n p' q' kin = (
  record {
    first_IsPlain = rest-IsPlain n p' kin.first_IsPlain;
    second_IsPlain = rest-IsPlain n q' kin.second_IsPlain;
    not_below =
        λ name e. kin.not_below name (ap (λ x. slash_after n ++ x) e ∙ below_child n q' name);
  },
  is_same_alike p' q' (slash_after n ++ p') (slash_after n ++ q') (ap (λ x. slash_after n ++ x))
      (append_cancel (slash_after n) p' q'),
)

along :
    {p q p' q' a b c d : Bytes}
    → p ≡ a
    → q ≡ b
    → p' ≡ c
    → q' ≡ d
    → (Kin a b → Follows a b c d)
    → Kin p q
    → Follows p q p' q'
along {p = p} {q = q} {p' = p'} {q' = q'} {a = a} {b = b} {c = c} {d = d} e f g h result =
    subst (λ x. Kin x q → Follows x q p' q') (sym e)
      (subst (λ x. Kin a x → Follows a x p' q') (sym f)
        (subst (λ x. Kin a b → Follows a b x q') (sym g)
          (subst (λ x. Kin a b → Follows a b c x) (sym h) result)))

-- Two paths with the same first name stay kin, and stay the same or different.
follow : (n p q p' q' : Bytes) → Parts n p p' → Parts n q q' → Kin p q → Follows p q p' q'
follow n p q p' q' (inl (a, b)) (inl (c, d)) kin = along a c b d (λ k. follow_alone n) kin
follow n p q p' q' (inl (a, b)) (inr d) kin = along a d b refl (follow_second n q') kin
follow n p q p' q' (inr a) (inl (c, d)) kin = along a c refl d (follow_first n p') kin
follow n p q p' q' (inr a) (inr c) kin = along a c refl refl (follow_both n p' q') kin

pub parts_first : (p : Bytes) → Parts (first_of p).0 p (first_of p).1
parts_first p = elim (first_of_cases p) [
  | inl (whole, empty, name) ↦ inl (whole, empty)
  | inr (split, name) ↦ inr split
]

module _ (xxh3_64 : Bytes → ℕ) where
  from_cases :
      (header : DirHeader) (direct : Route) (name whole rest : Bytes) (k : DirHandlePath)
      → route_from xxh3_64 header direct name whole ≡ into k rest
      → ((i : ℕ) × (into (shard i) whole ≡ into k rest)) ⊎ (direct ≡ into k rest)
  unfolding route_from
  from_cases header direct name whole rest k e = elim (Option-cases header.shard_level) [
    | inl n ↦ inr (ground (arith, e, n))
    | inr (level, n) ↦ elim (Option-cases (shard_bucket_for xxh3_64 level name)) [
      | inl b ↦ absurd (ground (arith, e, n, b))
      | inr (i, b) ↦ elim (Option-cases (shard_at header.shards i)) [
        | inl m ↦ inr (ground (arith, e, n, b, m))
        | inr (d, m) ↦ inl (i, ground (arith, e, n, b, m))
      ]
    ]
  ]

  -- A route into a child follows the whole path into a shard, and the rest of it into a directory.
  into_cases :
      (s : DirV1) (p rest : Bytes) (k : DirHandlePath)
      → route_to_child xxh3_64 s p ≡ into k rest
      → ((i : ℕ) × (shard i ≡ k) × (p ≡ rest))
        ⊎ ((path (first_of p).0 ≡ k) × ((first_of p).1 ≡ rest))
  into_cases s p rest k e =
      let n = (first_of p).0 in
      let left = (first_of p).1 in
      elim (from_cases s.header (route_dir s n left) n p rest k e) [
        | inl (i, same) ↦ inl (i, key_of same, rest_of same)
        | inr direct ↦ inr (into_dir s n left rest k direct)
      ]
    where
      key_of : {k l : DirHandlePath} {p q : Bytes} → into k p ≡ into l q → k ≡ l
      key_of e = ground (arith, e)

      rest_of : {k l : DirHandlePath} {p q : Bytes} → into k p ≡ into l q → p ≡ q
      rest_of e = ground (arith, e)

      into_dir :
          (s : DirV1) (n left rest : Bytes) (k : DirHandlePath)
          → route_dir s n left ≡ into k rest
          → (path n ≡ k) × (left ≡ rest)
      into_dir s n left rest k e = elim (Bool-cases (contains_key s.dirs n)) [
        | inl c ↦ (ground (arith, e, c), ground (arith, e, c))
        | inr c ↦ absurd (ground (arith, e, c))
      ]

  -- Two kin paths that lead into the same child are kin there, the same or different as before.
  pub Kin-into :
      (s : DirV1) (p q p' q' : Bytes) (k : DirHandlePath)
      → route_to_child xxh3_64 s p ≡ into k p'
      → route_to_child xxh3_64 s q ≡ into k q'
      → Kin p q
      → Follows p q p' q'
  Kin-into s p q p' q' k e f kin = elim (into_cases s p p' k e) [
    | inl (i, a, b) ↦ elim (into_cases s q q' k f) [
      | inl (j, c, d) ↦ along b d refl refl (λ h. (h, refl)) kin
      | inr (c, d) ↦ absurd (ground (arith, a, c))
    ]
    | inr (a, b) ↦ elim (into_cases s q q' k f) [
      | inl (j, c, d) ↦ absurd (ground (arith, a, c))
      | inr (c, d) ↦
          let names : (first_of q).0 ≡ (first_of p).0 = ground (arith, a, c) in
          follow (first_of p).0 p q p' q' (subst (Parts (first_of p).0 p) b (parts_first p))
            (subst (Parts (first_of p).0 q) d
              (subst (λ n. Parts n q (first_of q).1) names (parts_first q)))
            kin
    ]
  ]
