-- ===== src/Fs/Tree/Names.antt =====
-- The first name of a path (s5_fs/src/actor.rs, route_to_child).
use s5_rs.Base.{
  ◌≡◌, refl, ap, ap₂, sym, ◌∙◌, subst, ◌==◌, Bytes, false, none, some, [], ◌∷◌, ◌++◌, is_same,
  is_same_eq, is_same_refl, bytes_ord, arith, Bool-cases, Option-cases, ◌⊎◌, inl, inr, append_assoc,
}
use s5_rs.Fs.CreateDir.{strip_prefix, starts_with, slash_after}
use s5_rs.Fs.CreateDir.Extract.{strip_prefix-some, strip_prefix-append}
use s5_rs.Fs.Tree.{split_once, first_of}
use s5_rs.Fs.Tree.Promotion.{in_group}

-- A name without a slash.
abbrev pub IsName : Bytes → Type 0
IsName g = split_once g ≡ none

pub split_once-append : (g rest : Bytes) → IsName g → split_once (g ++ (47 ∷ rest)) ≡ some (g, rest)
unfolding split_once
split_once-append [] rest h = refl
split_once-append (c ∷ g) rest h = elim (Bool-cases (c == 47)) [
  | inl e ↦ absurd (ground (arith, e, h))
  | inr e ↦ elim (Option-cases (split_once g)) [
    | inl n ↦ ground (arith, e, split_once-append g rest n)
    | inr (parts, n) ↦ absurd (ground (arith, e, n, h))
  ]
]

pub split_once-some :
    (p : Bytes) {g rest : Bytes} → split_once p ≡ some (g, rest) → (p ≡ g ++ (47 ∷ rest)) × IsName g
unfolding split_once
split_once-some [] h = absurd (ground (arith, h))
split_once-some (c ∷ p) {g = g} {rest = rest} h = elim (Bool-cases (c == 47)) [
  | inl e ↦
      let empty : [] ≡ g = ground (arith, e, h) in
      let left : p ≡ rest = ground (arith, e, h) in
      let code : c ≡ 47 = ground (arith, e) in
      (ap₂ ◌∷◌ code left ∙ ap (λ x. x ++ (47 ∷ rest)) empty, subst IsName empty refl)
  | inr e ↦ elim (Option-cases (split_once p)) [
    | inl n ↦ absurd (ground (arith, e, n, h))
    | inr ((g', rest'), n) ↦
        let (whole, name) = split_once-some p {g = g'} {rest = rest'} n in
        let first : c ∷ g' ≡ g = ground (arith, e, n, h) in
        let left : rest' ≡ rest = ground (arith, e, n, h) in
        (
          ap (◌∷◌ c) (whole ∙ ap (λ r. g' ++ (47 ∷ r)) left) ∙ ap (λ x. x ++ (47 ∷ rest)) first,
          subst IsName first (ground (arith, e, name)),
        )
  ]
]

pub slash_append : (g name : Bytes) → slash_after g ++ name ≡ g ++ (47 ∷ name)
slash_append g name = append_assoc g (47 ∷ []) name

pub split-slash_after :
    (g name : Bytes) → IsName g → split_once (slash_after g ++ name) ≡ some (g, name)
split-slash_after g name h = ap split_once (slash_append g name) ∙ split_once-append g name h

-- The group of a name: the paths that start with it and a slash.
pub in_group_lem : (g p : Bytes) → IsName g → in_group g p ≡ starts_with p (slash_after g)
in_group_lem g p h = elim (Option-cases (strip_prefix p (slash_after g))) [
  | inr (name, e) ↦
      let split =
        ap split_once (strip_prefix-some p (slash_after g) e) ∙ split-slash_after g name h in
      ground (arith, e, split, is_same_refl g)
  | inl e ↦ elim (Option-cases (split_once p)) [
    | inl n ↦ ground (arith, e, n)
    | inr ((f, rest), n) ↦ elim (Bool-cases (is_same f g)) [
      | inr other ↦ ground (arith, e, n, other)
      | inl same ↦
          let whole =
            (split_once-some p n).0
            ∙ ap (λ x. x ++ (47 ∷ rest)) (is_same_eq f g same)
            ∙ sym (slash_append g rest) in
          let starts =
            ap (λ x. strip_prefix x (slash_after g)) whole
            ∙ strip_prefix-append (slash_after g) rest in
          absurd (ground (arith, e, starts))
    ]
  ]
]

-- A path whose first name is another one does not start with this name and a slash.
pub starts_with_other :
    (g q : Bytes)
    → IsName g
    → is_same (first_of q).0 g ≡ false
    → starts_with q (slash_after g) ≡ false
starts_with_other g q h other = elim (Option-cases (strip_prefix q (slash_after g))) [
  | inl e ↦ ground (arith, e)
  | inr (name, e) ↦
      let split =
        ap split_once (strip_prefix-some q (slash_after g) e) ∙ split-slash_after g name h in
      absurd (ground (arith, split, other, is_same_refl g))
]

-- A path is its first name, or that with a slash and the rest.
pub first_of_cases :
    (q : Bytes)
    → ((q ≡ (first_of q).0) × ((first_of q).1 ≡ []) × IsName q)
      ⊎ ((q ≡ slash_after (first_of q).0 ++ (first_of q).1) × IsName (first_of q).0)
first_of_cases q = elim (Option-cases (split_once q)) [
  | inl n ↦ inl (ground (arith, n), ground (arith, n), n)
  | inr ((g, rest), n) ↦
      let (whole, name) = split_once-some q n in
      let first : g ≡ (first_of q).0 = ground (arith, n) in
      let left : rest ≡ (first_of q).1 = ground (arith, n) in
      inr (
        whole ∙ sym (slash_append g rest) ∙ ap₂ (λ x y. slash_after x ++ y) first left,
        subst IsName first name,
      )
]
