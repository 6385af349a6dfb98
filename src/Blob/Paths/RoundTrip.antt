-- ===== src/Blob/Paths/RoundTrip.antt =====
-- Blob paths and back (s5_core/src/blob/paths.rs).
use s5_rs.Base.{
  ℕ, ◌≡◌, ◌≢◌, refl, sym, ap, ◌∙◌, Bytes, IsBytes, Bool, true, not, Option, some, [], ◌∷◌, ◌++◌,
  Result, ok, ◌==◌, length, take, drop, keep, arith, All, All-take, All-drop, take-append-drop,
  drop-add, Bool-cases, Option-cases, inl, inr, subst,
}
use s5_rs.Store.{StoreFeatures}
use s5_rs.Stream.{IsArray}
use s5_rs.Blob.Paths.{
  HashCodec, PathError, slash, hash_text, path_for_hash, blob_path_for_hash, as_hash,
  hash_from_blob_path,
}

-- What the crates promise for a hash of 32 bytes: texts without slashes, which decode to it.
-- What they decode is bytes.
pub record IsHashCodec (c : HashCodec) : Type 0 where
  pub base64_plain : (h : Bytes) → IsArray 32 h → All (λ x. x ≢ slash) (c.base64_encode h)
  pub base64_len : (h : Bytes) → IsArray 32 h → length (c.base64_encode h) ≡ 43
  pub base64_round : (h : Bytes) → IsArray 32 h → c.base64_decode (c.base64_encode h) ≡ some h
  pub base64_bytes : (t : Bytes) {b : Bytes} → c.base64_decode t ≡ some b → IsBytes b
  pub base32_plain : (h : Bytes) → IsArray 32 h → All (λ x. x ≢ slash) (c.base32_encode h)
  pub base32_len : (h : Bytes) → IsArray 32 h → length (c.base32_encode h) ≡ 52
  pub base32_valid : (h : Bytes) → IsArray 32 h → c.base32_is_valid (c.base32_encode h) ≡ true
  pub decoded_len : c.base32_decoded_len 52 ≡ some 32
  pub base32_round : (h : Bytes) → IsArray 32 h → c.base32_decode (c.base32_encode h) ≡ h
  pub base32_bytes : (t : Bytes) → IsBytes (c.base32_decode t)

abbrev pub no_slash : ℕ → Bool
no_slash x = not (x == slash)

keep-append : (xs ys : Bytes) → keep no_slash (xs ++ ys) ≡ keep no_slash xs ++ keep no_slash ys
unfolding keep
keep-append [] ys = refl
keep-append (x ∷ xs) ys = ground (arith, keep-append xs ys)

pub keep-plain : (xs : Bytes) → All (λ x. x ≢ slash) xs → keep no_slash xs ≡ xs
unfolding keep
keep-plain [] h = refl
keep-plain (x ∷ xs) h = ground (arith, h.0, keep-plain xs h.1)

-- A slash between two pieces is dropped.
keep-slash :
    (xs ys : Bytes)
    → All (λ x. x ≢ slash) xs
    → keep no_slash (xs ++ (slash ∷ ys)) ≡ xs ++ keep no_slash ys
unfolding keep
keep-slash xs ys h =
    keep-append xs (slash ∷ ys) ∙ ap (λ (t : Bytes). t ++ keep no_slash ys) (keep-plain xs h)

-- The text of a hash, cut into its pieces, is the text again.
cut2 : (s : Bytes) → take 2 s ++ (take 2 (drop 2 s) ++ drop 4 s) ≡ s
cut2 s =
    ap (λ t. take 2 s ++ (take 2 (drop 2 s) ++ t)) (drop-add 2 2 s)
    ∙ ap (◌++◌ (take 2 s)) (take-append-drop 2 (drop 2 s))
    ∙ take-append-drop 2 s

cut3 : (s : Bytes) → take 2 s ++ (take 2 (drop 2 s) ++ (take 2 (drop 4 s) ++ drop 6 s)) ≡ s
cut3 s =
    ap (λ t. take 2 s ++ (take 2 (drop 2 s) ++ (take 2 (drop 4 s) ++ t))) (drop-add 4 2 s)
    ∙ ap (λ t. take 2 s ++ (take 2 (drop 2 s) ++ t)) (take-append-drop 2 (drop 4 s))
    ∙ cut2 s

module _ (s : Bytes) (plain : All (λ x. x ≢ slash) s) where
  keep-cut2 : keep no_slash (take 2 s ++ (slash ∷ (take 2 (drop 2 s) ++ (slash ∷ drop 4 s)))) ≡ s
  keep-cut2 =
      keep-slash (take 2 s) _ (All-take _ 2 s plain)
      ∙ ap (◌++◌ (take 2 s)) (
          keep-slash (take 2 (drop 2 s)) _ (All-take _ 2 (drop 2 s) (All-drop _ 2 s plain))
          ∙ ap (◌++◌ (take 2 (drop 2 s))) (keep-plain (drop 4 s) (All-drop _ 4 s plain)))
      ∙ cut2 s

  keep-cut3 :
      keep no_slash (
        take 2 s
        ++ (slash ∷ (take 2 (drop 2 s) ++ (slash ∷ (take 2 (drop 4 s) ++ (slash ∷ drop 6 s))))))
      ≡ s
  keep-cut3 =
      keep-slash (take 2 s) _ (All-take _ 2 s plain)
      ∙ ap (◌++◌ (take 2 s)) (
          keep-slash (take 2 (drop 2 s)) _ (All-take _ 2 (drop 2 s) (All-drop _ 2 s plain))
          ∙ ap (◌++◌ (take 2 (drop 2 s))) (
              keep-slash (take 2 (drop 4 s)) _ (All-take _ 2 (drop 4 s) (All-drop _ 4 s plain))
              ∙ ap (◌++◌ (take 2 (drop 4 s))) (keep-plain (drop 6 s) (All-drop _ 6 s plain))))
      ∙ cut3 s

ok_some :
    {a b : Bytes} → ◌≡◌ {A = Result PathError (Option Bytes)} (ok (some a)) (ok (some b)) → a ≡ b
ok_some e = ground (arith, e)

module _ (c : HashCodec) (codec : IsHashCodec c) where
  hash_text-plain :
      (h : Bytes) (f : StoreFeatures) → IsArray 32 h → All (λ x. x ≢ slash) (hash_text c h f)
  hash_text-plain h f a = elim (Bool-cases f.case_sensitive) [
    | inl e ↦ rw e (codec.base64_plain h a)
    | inr e ↦ rw e (codec.base32_plain h a)
  ]

  keep-path_for_hash :
      (h : Bytes) (f : StoreFeatures)
      → IsArray 32 h
      → keep no_slash (path_for_hash c h f) ≡ hash_text c h f
  unfolding path_for_hash
  keep-path_for_hash h f a =
      let plain = hash_text-plain h f a in
      ground (arith, keep-cut2 _ plain, keep-cut3 _ plain, keep-plain _ plain)

  -- hash_from_blob_path finds the hash in the path that blob_path_for_hash makes of it, whatever
  -- the features of the store are, for codecs whose texts have no slashes and decode to the hash.
  pub hash_from_blob_path-blob_path_for_hash :
      (h : Bytes) (f : StoreFeatures)
      → IsArray 32 h
      → hash_from_blob_path c (blob_path_for_hash c h f) f ≡ ok (some h)
  unfolding hash_from_blob_path blob_path_for_hash
  hash_from_blob_path-blob_path_for_hash h f a =
      let text = keep-path_for_hash h f a in
      ground (
        arith,
        text,
        a.len,
        codec.base64_len h a,
        codec.base64_round h a,
        codec.base32_len h a,
        codec.base32_valid h a,
        codec.decoded_len,
        codec.base32_round h a,
      )

  pub blob_path_for_hash_injective :
      (h k : Bytes) (f : StoreFeatures)
      → IsArray 32 h
      → IsArray 32 k
      → blob_path_for_hash c h f ≡ blob_path_for_hash c k f
      → h ≡ k
  blob_path_for_hash_injective h k f a b e =
      let one = hash_from_blob_path-blob_path_for_hash h f a in
      let two = hash_from_blob_path-blob_path_for_hash k f b in
      ok_some (sym one ∙ ap (λ t. hash_from_blob_path c t f) e ∙ two)

  as_hash-IsArray : (b : Bytes) {h : Bytes} → IsBytes b → as_hash b ≡ some h → IsArray 32 h
  as_hash-IsArray b {h} i e =
      let same : b ≡ h = ground (arith, e) in
      let long : length b ≡ 32 = ground (arith, e) in
      subst (IsArray 32) same (record { len = long; bytes = i })

  pub hash_from_blob_path-IsArray :
      (p : Bytes) (f : StoreFeatures) {h : Bytes}
      → hash_from_blob_path c p f ≡ ok (some h)
      → IsArray 32 h
  unfolding hash_from_blob_path
  hash_from_blob_path-IsArray p f {h} e =
      let text = keep (λ x. not (x == slash)) (drop 6 p) in
      let from32 = as_hash-IsArray (c.base32_decode text) {h = h} (codec.base32_bytes text) in
      elim (Option-cases (c.base64_decode text)) [
        | inl n ↦ ground (arith, n, e, from32)
        | inr (b, d) ↦
            ground (arith, d, e, from32, as_hash-IsArray b {h = h} (codec.base64_bytes text d))
      ]
