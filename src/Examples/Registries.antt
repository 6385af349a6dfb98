-- ===== src/Examples/Registries.antt =====
-- The registries.
use mathlib.Core.List.Perm
use s5_rs.Base.{
  ℕ, ◌≡◌, ◌↔◌, ◌≤◌, ◌+◌, ◌/◌, ◌%◌, refl, Bytes, none, List, [], ◌∷◌, map, ok, arith, ltb,
  if◌then◌else◌,
}
use s5_rs.BTreeMap
use s5_rs.Stream.{StreamMessage}
use s5_rs.Store.Memory.{memory_store}
use s5_rs.Store.Memory.Laws.{memory_store-IsStore}
use s5_rs.Registry.{memory_get, memory_registry, memory_set, memory_delete}
use s5_rs.Registry.Contract.{
  IsSound, IsKey, Mirrors, IsRegistry, memory_registry-IsRegistry, view, read_back?,
}
use s5_rs.Registry.Convergence.{publish, rank_at, publish-perm}
use s5_rs.Registry.Redb.{redb_get, decode_entry, redb_registry}
use s5_rs.Registry.Redb.Refinement.{redb_registry-IsRegistry}
use s5_rs.Registry.Backed.{backed_registry}
use s5_rs.Registry.Backed.Refinement.{backed_registry-IsRegistry}
use s5_rs.Registry.Tee.{tee_get, tee_set, tee_delete}
use s5_rs.Registry.Tee.Agreement.{tee_agrees}
use s5_rs.Registry.Multi.{quorum, multi_set, multi_get, multi_delete, success_count}
use s5_rs.Registry.Multi.Agreement.{multi_agrees, AllMirror}
use s5_rs.Registry.Multi.Policy.{multi_set_iff}
use s5_rs.Registry.Remote.{client_get, client_set, client_delete}
use s5_rs.Registry.Remote.Refinement.{remote_agrees}
use s5_rs.Examples.Streams.{a_key, message_at, message_at_1_9-IsTyped, message_at_1_9-IsValid}

abbrev updates : List StreamMessage
updates = message_at 1 9 ∷ message_at 2 9 ∷ message_at 2 4 ∷ []

abbrev updates_late : List StreamMessage
updates_late = message_at 2 9 ∷ message_at 1 9 ∷ message_at 2 4 ∷ []

publish-perm_example : rank_at (publish [] updates) a_key ≡ rank_at (publish [] updates_late) a_key
publish-perm_example =
    publish-perm [] updates updates_late a_key (refl, (refl, (refl, tt)))
      (Perm.swap (message_at 2 9) (message_at 1 9) (message_at 2 4 ∷ []))

-- A hexadecimal digit.
digit : ℕ → ℕ
digit n = if ltb n 10 then 48 + n else 87 + n

hex : Bytes → Bytes
hex [] = []
hex (b ∷ bs) = digit (b / 16) ∷ digit (b % 16) ∷ hex bs

hex_injective : (a b : Bytes) → hex a ≡ hex b → a ≡ b
unfolding hex digit
hex_injective [] [] h = refl
hex_injective [] (y ∷ ys) h = ground arith
hex_injective (x ∷ xs) [] h = ground arith
hex_injective (x ∷ xs) (y ∷ ys) h = ground (arith, hex_injective xs ys)

backed_registry-IsRegistry_example : IsRegistry (backed_registry memory_store hex (112 ∷ []))
backed_registry-IsRegistry_example =
    backed_registry-IsRegistry memory_store hex (112 ∷ []) memory_store-IsStore hex_injective

a_message-IsSound : IsSound (message_at 1 9)
a_message-IsSound = record { typed = message_at_1_9-IsTyped; valid = message_at_1_9-IsValid }

a_key_typed : IsKey a_key
a_key_typed = message_at_1_9-IsTyped.key_array

empty_memory : Mirrors memory_registry [] []
unfolding BTreeMap.get memory_get redb_get decode_entry
empty_memory = record { at_key = λ k t. refl; sound = λ k. tt }

empty_redb : Mirrors redb_registry [] []
unfolding BTreeMap.get memory_get redb_get decode_entry
empty_redb = record { at_key = λ k t. refl; sound = λ k. tt }

tee_agrees_example :
    (view (tee_get memory_registry redb_registry ([], []) a_key) ≡ ok (read_back? none))
    × ((tee_set memory_registry redb_registry ([], []) (message_at 1 9)).0 ≡ ok tt)
    × Mirrors memory_registry
        (tee_set memory_registry redb_registry ([], []) (message_at 1 9)).1.0
        (memory_set [] (message_at 1 9)).1
    × Mirrors redb_registry
        (tee_set memory_registry redb_registry ([], []) (message_at 1 9)).1.1
        (memory_set [] (message_at 1 9)).1
    × ((tee_delete memory_registry redb_registry ([], []) a_key).0 ≡ ok tt)
    × Mirrors memory_registry
        (tee_delete memory_registry redb_registry ([], []) a_key).1.0
        (memory_delete [] a_key).1
    × Mirrors redb_registry
        (tee_delete memory_registry redb_registry ([], []) a_key).1.1
        (memory_delete [] a_key).1
unfolding BTreeMap.get
tee_agrees_example =
    tee_agrees memory_registry redb_registry memory_registry-IsRegistry redb_registry-IsRegistry
      ([], []) [] (message_at 1 9) a_key a_message-IsSound a_key_typed empty_memory empty_redb

remote_agrees_example :
    (view (client_get redb_registry [] a_key) ≡ ok (read_back? none))
    × ((client_set redb_registry [] (message_at 1 9)).0 ≡ ok tt)
    × Mirrors redb_registry
        (client_set redb_registry [] (message_at 1 9)).1
        (memory_set [] (message_at 1 9)).1
    × ((client_delete redb_registry [] a_key).0 ≡ ok tt)
    × Mirrors redb_registry (client_delete redb_registry [] a_key).1 (memory_delete [] a_key).1
unfolding BTreeMap.get
remote_agrees_example =
    remote_agrees redb_registry redb_registry-IsRegistry [] [] (message_at 1 9) a_key
      a_message-IsSound a_key_typed empty_redb

multi_set_iff_example :
    ((multi_set memory_registry (quorum 2) ([] ∷ [] ∷ []) (message_at 1 9)).1
      ≡ map (λ b. (memory_set b (message_at 1 9)).1) ([] ∷ [] ∷ []))
    × (((multi_set memory_registry (quorum 2) ([] ∷ [] ∷ []) (message_at 1 9)).0 ≡ ok tt)
        ↔ (2 ≤ success_count (map (λ b. (memory_set b (message_at 1 9)).0) ([] ∷ [] ∷ []))))
multi_set_iff_example = multi_set_iff memory_registry (quorum 2) [] ([] ∷ []) (message_at 1 9)

multi_agrees_example :
    (view (multi_get redb_registry (quorum 2) ([] ∷ [] ∷ []) a_key) ≡ ok none)
    × ((multi_set redb_registry (quorum 2) ([] ∷ [] ∷ []) (message_at 1 9)).0 ≡ ok tt)
    × AllMirror redb_registry
        (quorum 2)
        redb_registry-IsRegistry
        (multi_set redb_registry (quorum 2) ([] ∷ [] ∷ []) (message_at 1 9)).1
        (memory_set [] (message_at 1 9)).1
    × ((multi_delete redb_registry (quorum 2) ([] ∷ [] ∷ []) a_key).0 ≡ ok tt)
    × AllMirror redb_registry
        (quorum 2)
        redb_registry-IsRegistry
        (multi_delete redb_registry (quorum 2) ([] ∷ [] ∷ []) a_key).1
        (memory_delete [] a_key).1
unfolding BTreeMap.get
multi_agrees_example =
    multi_agrees redb_registry (quorum 2) redb_registry-IsRegistry [] ([] ∷ []) [] (message_at 1 9)
      a_key a_message-IsSound a_key_typed (empty_redb, (empty_redb, tt)) (omega arith)
