-- ===== src/Blob/Download/Range.antt =====
-- What a download sends (s5_blobs/src/net_protocol.rs, handle_download).
use s5_rs.Base.{
  ℕ, zero, suc, ◌+◌, ◌-◌, ◌≤◌, ◌<◌, min, ◌≡◌, refl, sym, ap, ap₂, ◌∙◌, Bytes, Bool, true, false,
  Option, some, none, [], ◌∷◌, ◌++◌, ok, length, take, drop, concat, is_empty, ltb, arith,
  length-take, length-drop, take-add, take-all, take-min, take-nil, drop_of_length-le, drop-add,
  append_assoc, Bool-cases, inl, inr,
}
use s5_rs.Store.{Store}
use s5_rs.Store.Contract.{IsFullStore}
use s5_rs.Blob.Paths.{HashCodec}
use s5_rs.Blob.Store.{blob_path, read_as_bytes}
use s5_rs.Blob.Rpc.{DownloadBlob}
use s5_rs.Blob.Download.{bytes_to_send, chunk_size, send_chunks, send_range}

-- A piece of a part, and what is left of it.
part_split :
    (offset sent want rest : ℕ) (b : Bytes)
    → take (want + rest) (drop (offset + sent) b)
      ≡ take want (drop (offset + sent) b) ++ take rest (drop (offset + (sent + want)) b)
part_split offset sent want rest b =
    let same : offset + (sent + want) ≡ (offset + sent) + want = omega arith in
    take-add want rest (drop (offset + sent) b)
    ∙ ap (λ t. take want (drop (offset + sent) b) ++ take rest t)
        (sym (ap (λ n. drop n b) same ∙ drop-add (offset + sent) want b))

is_empty-false : (xs : Bytes) → 0 < length xs → is_empty xs ≡ false
is_empty-false [] h = absurd (omega arith)
is_empty-false (x ∷ xs) h = refl

take_zero : (n : ℕ) (xs : Bytes) → n ≡ 0 → take n xs ≡ []
take_zero n xs e = ap (λ k. take k xs) e

module _ {S : Type 0} (c : HashCodec) (api : Store S) (full : IsFullStore api) (s : S)
    (hash : Bytes) (b : Bytes) (there : full.basic.file s (blob_path c api hash) ≡ some b)
    (offset to_send : ℕ) (fits : offset + to_send ≤ length b) where
  want : ℕ → ℕ
  want sent = min 65536 (to_send - sent)

  -- The chunk of one turn.
  chunk : ℕ → Bytes
  unfolding want
  chunk sent = take (want sent) (drop (offset + sent) b)

  chunk_read :
      (sent : ℕ)
      → read_as_bytes c api s hash (offset + sent) (some (min chunk_size (to_send - sent)))
        ≡ ok (chunk sent)
  unfolding read_as_bytes chunk want
  chunk_read sent = full.read_part s (blob_path c api hash) (offset + sent) _ there

  length-chunk : (sent : ℕ) → length (chunk sent) ≡ want sent
  unfolding chunk want
  length-chunk sent =
      let long = length-drop (offset + sent) b in
      length-take (want sent) (drop (offset + sent) b) (omega (arith, long))

  chunk_ne : (sent : ℕ) → sent < to_send → is_empty (chunk sent) ≡ false
  unfolding want
  chunk_ne sent h = is_empty-false (chunk sent) (omega (arith, length-chunk sent))

  -- What is left to send, and how a chunk shortens it.
  left : ℕ → Bytes
  left sent = take (to_send - sent) (drop (offset + sent) b)

  left_step : (sent : ℕ) → left sent ≡ chunk sent ++ left (sent + length (chunk sent))
  unfolding left chunk want
  left_step sent =
      let n = want sent in
      let long : sent + length (chunk sent) ≡ sent + n = ap (◌+◌ sent) (length-chunk sent) in
      let sum : to_send - sent ≡ n + (to_send - (sent + n)) = omega arith in
      ap (λ k. take k (drop (offset + sent) b)) sum
      ∙ part_split offset sent n (to_send - (sent + n)) b
      ∙ sym (ap (λ k. chunk sent ++ left k) long)

  -- A receiver that listens to the end gets all that is left.
  send_chunks_all :
      (listens : ℕ → Bool) (fuel sent : ℕ)
      → ((n : ℕ) → listens n ≡ true)
      → to_send ≤ sent + fuel
      → concat (send_chunks c api s hash listens offset to_send fuel sent) ≡ left sent
  unfolding send_chunks left want
  send_chunks_all listens zero sent on enough = sym (take_zero (to_send - sent) _ (omega arith))
  send_chunks_all listens (suc fuel) sent on enough = elim (Bool-cases (ltb sent to_send)) [
    | inr e ↦ rw e (sym (take_zero (to_send - sent) _ (ground (arith, e))))
    | inl e ↦
        let rest =
          send_chunks_all listens fuel (sent + length (chunk sent)) on
            (ground (arith, length-chunk sent, e)) in
        rw (e, chunk_read sent, chunk_ne sent (ground (arith, e)), on sent)
          (ap (◌++◌ (chunk sent)) rest ∙ sym (left_step sent))
  ]

  -- Whatever the receiver does, it gets the first bytes of what is left.
  send_chunks_prefix :
      (listens : ℕ → Bool) (fuel sent : ℕ)
      → (after : Bytes) × (concat (send_chunks c api s hash listens offset to_send fuel sent)
            ++ after
          ≡ left sent)
  unfolding send_chunks left
  send_chunks_prefix listens zero sent = (left sent, refl)
  send_chunks_prefix listens (suc fuel) sent = elim (Bool-cases (ltb sent to_send)) [
    | inr e ↦ (left sent, rw e refl)
    | inl e ↦ elim (Bool-cases (listens sent)) [
      | inr off ↦ (left sent, rw (e, chunk_read sent, chunk_ne sent (ground (arith, e)), off) refl)
      | inl on ↦
          let (after, rest) = send_chunks_prefix listens fuel (sent + length (chunk sent)) in
          (
            after,
            rw (e, chunk_read sent, chunk_ne sent (ground (arith, e)), on)
                (append_assoc (chunk sent) _ after
                  ∙ ap (◌++◌ (chunk sent)) rest
                  ∙ sym (left_step sent)),
          )
    ]
  ]

-- The bytes of a blob from an offset on, or so many of them.
abbrev pub part : Option ℕ → Bytes → Bytes
part (some m) bytes = take m bytes
part none bytes = bytes

take-bytes_to_send :
    (m : Option ℕ) (xs : Bytes) (n : ℕ) → length xs ≡ n → take (bytes_to_send m n) xs ≡ part m xs
take-bytes_to_send none xs n e = ap (λ k. take k xs) (sym e) ∙ take-all xs
take-bytes_to_send (some m) xs n e =
    let same : min m n ≡ min (length xs) m = omega (arith, e) in
    ap (λ k. take k xs) same ∙ take-min m xs

bytes_to_send-le : (m : Option ℕ) (n : ℕ) → bytes_to_send m n ≤ n
bytes_to_send-le none n = omega arith
bytes_to_send-le (some m) n = omega arith

part-nil : (m : Option ℕ) → part m [] ≡ []
part-nil none = refl
part-nil (some m) = take-nil m

-- The bytes that a request asks for.
abbrev pub asked : DownloadBlob → Bytes → Bytes
asked req b = part req.max_len (drop req.offset b)

module _ {S : Type 0} (c : HashCodec) (api : Store S) (full : IsFullStore api) (s : S)
    (req : DownloadBlob) (listens : ℕ → Bool) (b : Bytes)
    (there : full.basic.file s (blob_path c api req.hash) ≡ some b) where
  abbrev amount : ℕ
  amount = bytes_to_send req.max_len (length b - req.offset)

  fits : ltb (length b) req.offset ≡ false → req.offset + amount ≤ length b
  fits inside = ground (arith, inside, bytes_to_send-le req.max_len (length b - req.offset))

  left-asked : take (amount - 0) (drop (req.offset + 0) b) ≡ asked req b
  left-asked =
      ap₂ (λ n k. take n (drop k b)) (let e : amount - 0 ≡ amount = omega arith in e)
        (let e : req.offset + 0 ≡ req.offset = omega arith in e)
      ∙ take-bytes_to_send req.max_len (drop req.offset b) _ (length-drop req.offset b)

  past_end : ltb (length b) req.offset ≡ true → asked req b ≡ []
  past_end past =
      ap (part req.max_len) (drop_of_length-le req.offset b (ground (arith, past)))
      ∙ part-nil req.max_len

  -- A receiver that listens to the end gets all the bytes asked for, in the order of the blob.
  pub send_range_all :
      ((n : ℕ) → listens n ≡ true)
      → concat (send_range c api s req listens (length b)) ≡ asked req b
  unfolding send_range left
  send_range_all on = elim (Bool-cases (ltb (length b) req.offset)) [
    | inl past ↦ rw past (sym (past_end past))
    | inr e ↦ rw e (
        send_chunks_all c api full s req.hash b there req.offset amount (fits e) listens amount 0 on
          (omega arith)
        ∙ left-asked)
  ]

  -- Whatever the receiver does, it gets the first of the bytes asked for.
  pub send_range_prefix :
      (after : Bytes) × (concat (send_range c api s req listens (length b)) ++ after ≡ asked req b)
  unfolding send_range left
  send_range_prefix = elim (Bool-cases (ltb (length b) req.offset)) [
    | inl past ↦ ([], rw past (sym (past_end past)))
    | inr e ↦
        let (after, same) =
          send_chunks_prefix c api full s req.hash b there req.offset amount (fits e) listens amount
            0 in
        (after, rw e (same ∙ left-asked))
  ]
