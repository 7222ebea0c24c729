-- ===== src/BomBackfill/Batches.antt =====
-- services/api/app/sync/bom_backfill_queue_service.py: the batches of `_chunk_queue_items`.
use auto_scheduling_system.Prelude.{
  ℕ, zero, suc, ◌≤◌, max, ◌≡◌, refl, ap, List, [], ◌∷◌, ◌++◌, length, arith, subst, ◌⊎◌, inl, inr,
  le_cases, take, drop_all, drop, take-append-drop, length-take, length-drop,
}
use auto_scheduling_system.BomBackfill.{QueueItem, Settings}
use auto_scheduling_system.BomBackfill.Consume.{chunk_queue_items, chunks, chunks_of}

-- The batches one after the other.
abbrev pub flatten : List (List QueueItem) → List QueueItem
flatten [] = []
flatten (batch ∷ batches) = batch ++ flatten batches

flatten-chunks :
    (fuel size : ℕ) (items : List QueueItem)
    → length items ≤ fuel
    → flatten (chunks fuel size items) ≡ items
unfolding chunks
flatten-chunks zero size [] h = refl
flatten-chunks zero size (item ∷ items) h = absurd (omega arith)
flatten-chunks (suc fuel) size [] h = refl
flatten-chunks (suc fuel) size (item ∷ items) h =
    rw (flatten-chunks fuel size (drop size items) (omega (arith, length-drop size items)))
      (ap (λ rest. item ∷ rest) (take-append-drop size items))

-- Every batch but the last has the size; the last is not empty and has no more.
abbrev pub AreFull : ℕ → List (List QueueItem) → Type 0
AreFull size [] = Unit
AreFull size (batch ∷ []) = (1 ≤ length batch) × (length batch ≤ size)
AreFull size (batch ∷ next ∷ batches) = (length batch ≡ size) × AreFull size (next ∷ batches)

AreFull-cons :
    (size : ℕ) (batch : List QueueItem) (batches : List (List QueueItem))
    → 1 ≤ length batch
    → length batch ≤ size
    → (batches ≡ []) ⊎ (length batch ≡ size)
    → AreFull size batches
    → AreFull size (batch ∷ batches)
AreFull-cons size batch [] low high full rest = (low, high)
AreFull-cons size batch (next ∷ batches) low high (inl e) rest = cc
AreFull-cons size batch (next ∷ batches) low high (inr e) rest = (e, rest)

chunks-none : (fuel size : ℕ) → chunks fuel size [] ≡ []
unfolding chunks
chunks-none zero size = refl
chunks-none (suc fuel) size = refl

chunks-AreFull :
    (fuel size : ℕ) (items : List QueueItem) → AreFull (suc size) (chunks fuel size items)
unfolding chunks
chunks-AreFull zero size items = tt
chunks-AreFull (suc fuel) size [] = tt
chunks-AreFull (suc fuel) size (item ∷ items) =
    AreFull-cons (suc size) (item ∷ take size items) (chunks fuel size (drop size items))
      (omega arith) (omega (arith, length-take size items))
      (elim (le_cases (length items) size) [
        | inl last ↦ inl (rw (drop_all size items last) (chunks-none fuel size))
        | inr more ↦ inr (omega (arith, length-take size items))
      ])
      (chunks-AreFull fuel size (drop size items))

-- The batches of a list: its items in their order, in batches of the size.
abbrev pub AreChunks : ℕ → List QueueItem → List (List QueueItem) → Type 0
AreChunks size items batches = (flatten batches ≡ items) × AreFull (max 1 size) batches

chunks_of-AreChunks :
    (size : ℕ) (items : List QueueItem) → AreChunks size items (chunks_of size items)
chunks_of-AreChunks zero items =
    (flatten-chunks (length items) 0 items (omega arith), chunks-AreFull (length items) 0 items)
chunks_of-AreChunks (suc size) items = (
  flatten-chunks (length items) size items (omega arith),
  subst (λ n. AreFull n (chunks (length items) size items)) (omega arith)
      (chunks-AreFull (length items) size items),
)

-- The batches hold the claimed items in their order, each once; each but the last has as many items as
-- the batch size, or one where that is 0, and the last has one at least and no more than that.
pub chunk_queue_items_lem :
    (settings : Settings) (items : List QueueItem)
    → AreChunks settings.batch_size items (chunk_queue_items settings items)
unfolding chunk_queue_items
chunk_queue_items_lem settings items = chunks_of-AreChunks settings.batch_size items
