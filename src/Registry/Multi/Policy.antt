-- ===== src/Registry/Multi/Policy.antt =====
-- The write policies of `MultiRegistry` (s5_registry/src/lib.rs).
use s5_rs.Base.{
  ℕ, suc, ◌≤◌, min, ◌≡◌, ◌≢◌, ◌↔◌, refl, List, [], ◌∷◌, map, ok, err, arith, length, ltb, ap,
}
use s5_rs.Stream.{StreamKey, StreamMessage}
use s5_rs.Registry.{RegistryApi}
use s5_rs.Registry.Multi.{
  WritePolicy, all, any, quorum, WriteResult, success_count, first_error, last_result, any_ok,
  settle_set, settle_delete, multi_set, multi_delete,
}

-- How many of `n` backends have to succeed.
abbrev pub required : WritePolicy → ℕ → ℕ
required all n = n
required any n = min 1 n
required (quorum q) n = q

success-le-length : (rs : List WriteResult) → success_count rs ≤ length rs
unfolding success_count
success-le-length [] = omega arith
success-le-length (ok u ∷ rs) = omega (arith, success-le-length rs)
success-le-length (err e ∷ rs) = omega (arith, success-le-length rs)

first_error_iff :
    (rs : List WriteResult) → (first_error rs ≡ ok tt) ↔ (length rs ≤ success_count rs)
unfolding first_error success_count
first_error_iff [] = (λ h. omega arith, λ h. refl)
first_error_iff (ok u ∷ rs) =
    let (f, g) = first_error_iff rs in (λ h. omega (arith, f h), λ h. g (omega arith))
first_error_iff (err e ∷ rs) = (λ h. cc, λ h. absurd (omega (arith, success-le-length rs)))

last_error :
    (r : WriteResult) (rs : List WriteResult)
    → success_count (r ∷ rs) ≡ 0
    → last_result (r ∷ rs) ≢ ok tt
unfolding last_result success_count
last_error (ok u) rs h = absurd (omega arith)
last_error (err e) [] h = λ p. cc
last_error (err e) (q ∷ rs) h = last_error q rs h

any_ok-success_count : (rs : List WriteResult) → any_ok rs ≡ ltb 0 (success_count rs)
unfolding any_ok success_count
any_ok-success_count [] = refl
any_ok-success_count (ok u ∷ rs) = ground arith
any_ok-success_count (err e ∷ rs) = any_ok-success_count rs

settle_any :
    (r : WriteResult) (rs : List WriteResult)
    → (settle_set any (r ∷ rs) ≡ ok tt) ↔ (min 1 (suc (length rs)) ≤ success_count (r ∷ rs))
unfolding settle_set
settle_any r rs = (λ h. ground (arith, last_error r rs), λ h. ground arith)

settle_set_iff :
    (p : WritePolicy) (rs : List WriteResult)
    → (settle_set p rs ≡ ok tt) ↔ (required p (length rs) ≤ success_count rs)
unfolding settle_set success_count
settle_set_iff all rs = first_error_iff rs
settle_set_iff any [] = (λ h. omega arith, λ h. refl)
settle_set_iff any (r ∷ rs) = settle_any r rs
settle_set_iff (quorum q) rs = (λ h. ground arith, λ h. ground arith)

-- The two ways in which `set` and `delete` settle agree.
settle_delete-settle_set :
    (p : WritePolicy) (rs : List WriteResult) → settle_delete p rs ≡ settle_set p rs
unfolding settle_set settle_delete
settle_delete-settle_set all rs = refl
settle_delete-settle_set any rs = ground (arith, any_ok-success_count rs)
settle_delete-settle_set (quorum n) rs = refl

map-map {ℓ κ ι} :
    {A : Type ℓ} {B : Type κ} {C : Type ι} (g : B → C) (f : A → B) (xs : List A)
    → map g (map f xs) ≡ map (λ x. g (f x)) xs
map-map g f [] = refl
map-map g f (x ∷ xs) = ap (◌∷◌ (g (f x))) (map-map g f xs)

length-map {ℓ κ} :
    {A : Type ℓ} {B : Type κ} (f : A → B) (xs : List A) → length (map f xs) ≡ length xs
length-map f [] = refl
length-map f (x ∷ xs) = ap suc (length-map f xs)

module _ {S : Type 0} (api : RegistryApi S) (p : WritePolicy) where
  -- set on one backend or more writes to every backend whatever the others answer, and succeeds
  -- exactly when as many backends succeed as the policy requires.
  pub multi_set_iff :
      (s : S) (ss : List S) (m : StreamMessage)
      → ((multi_set api p (s ∷ ss) m).1 ≡ map (λ b. (api.set b m).1) (s ∷ ss))
        × (((multi_set api p (s ∷ ss) m).0 ≡ ok tt)
            ↔ (required p (length (s ∷ ss)) ≤ success_count (map (λ b. (api.set b m).0) (s ∷ ss))))
  unfolding multi_set
  multi_set_iff s ss m =
      let rs : List WriteResult = map (λ b. (api.set b m).0) (s ∷ ss) in
      let e : length rs ≡ length (s ∷ ss) = length-map (λ b. (api.set b m).0) (s ∷ ss) in
      (
        map-map (λ r. r.1) (λ b. api.set b m) (s ∷ ss),
        rw (map-map (λ r. r.0) (λ b. api.set b m) (s ∷ ss)) (rw (← e) (settle_set_iff p rs)),
      )

  -- `delete` on at least one backend deletes on every backend, whatever the others answer, and
  -- succeeds exactly when as many backends succeed as the policy requires.
  pub multi_delete_iff :
      (s : S) (ss : List S) (k : StreamKey)
      → ((multi_delete api p (s ∷ ss) k).1 ≡ map (λ b. (api.delete b k).1) (s ∷ ss))
        × (((multi_delete api p (s ∷ ss) k).0 ≡ ok tt) ↔ (
            required p (length (s ∷ ss)) ≤ success_count (map (λ b. (api.delete b k).0) (s ∷ ss))))
  unfolding multi_delete
  multi_delete_iff s ss k =
      let rs : List WriteResult = map (λ b. (api.delete b k).0) (s ∷ ss) in
      let e : length rs ≡ length (s ∷ ss) = length-map (λ b. (api.delete b k).0) (s ∷ ss) in
      (
        map-map (λ r. r.1) (λ b. api.delete b k) (s ∷ ss),
        rw (map-map (λ r. r.0) (λ b. api.delete b k) (s ∷ ss), settle_delete-settle_set)
            (rw (← e) (settle_set_iff p rs)),
      )
