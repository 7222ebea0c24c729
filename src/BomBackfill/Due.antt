-- ===== src/BomBackfill/Due.antt =====
-- services/api/app/repository/bom_backfill_queue_repo.py: which items a claim takes.
use auto_scheduling_system.Prelude.{
  ℕ, ◌≤◌, ◌≡◌, ◌<◌, ◌⊎◌, refl, take_all, le_cases, any_where-where_true, Bool, true, false, not,
  ◌&&◌, ◌||◌, some, List, [], ◌∷◌, map, length, inl, inr, Bool-cases, where_true, sort_by, ◌∙◌, ap,
  subst, sym, first_where, any_where-sort_by, All-first_where, All-always, ==_iff, leb, ◌==◌, arith,
  if◌then◌else◌, length-sort_by,
}
use auto_scheduling_system.SyncJobs.{Time}
use auto_scheduling_system.BomBackfill.{
  QueueItem, Queue, Settings, get_item, update_item, is_retry_wait, is_pending,
}
use auto_scheduling_system.BomBackfill.Repo.{
  claimable, claim_batch, claim_item, is_due, is_retry_due, is_in, claims_before,
}
use auto_scheduling_system.BomBackfill.Waiting.{Reach, IsWaiting, Reach-IsWaiting}

pub first_where-map {ℓ} :
    {A : Type ℓ} (test : A → Bool) (change : A → A) (xs : List A) {x : A}
    → ((y : A) → test (change y) ≡ test y)
    → first_where test xs ≡ some x
    → first_where test (map change xs) ≡ some (change x)
first_where-map test change [] kept e = cc
first_where-map test change (y ∷ xs) {x} kept e = elim (Bool-cases (test y)) [
  | inl t ↦ let same : y ≡ x = cc (rw t at e) in rw (kept y) (rw t (rw same))
  | inr t ↦ rw (kept y) (rw t (first_where-map test change xs kept (rw t at e)))
]

get_item-id :
    (id : ℕ) (items : List QueueItem) {item : QueueItem}
    → get_item id items ≡ some item
    → item.id ≡ id
unfolding get_item
get_item-id id items {item} found =
    let passes =
      (All-first_where (λ _. Unit {0}) (λ row. row.id == id) items
        (All-always (λ _. Unit {0}) items (λ _. tt)) found).1 in
    (==_iff item.id id).0 passes

-- A change of the row of an id, which keeps the ids.
pub get_item-update_item :
    (id : ℕ) (change : QueueItem → QueueItem) (items : List QueueItem) {item : QueueItem}
    → ((row : QueueItem) → (change row).id ≡ row.id)
    → get_item id items ≡ some item
    → get_item id (update_item id change items) ≡ some (change item)
unfolding get_item update_item
get_item-update_item id change items {item} same found =
    let step : QueueItem → QueueItem = λ row. if row.id == id then change row else row in
    let kept : (row : QueueItem) → (step row).id ≡ row.id =
      λ row. elim (Bool-cases (row.id == id)) [ inl e ↦ rw e (same row) | inr e ↦ rw e refl ] in
    let passes : (item.id == id) ≡ true = (==_iff item.id id).1 (get_item-id id items found) in
    first_where-map (λ row. row.id == id) step items (λ row. ap (λ i. i == id) (kept row)) found
    ∙ rw passes

abbrev is_claimable : (locked : ℕ → Bool) → Time → QueueItem → Bool
is_claimable locked now row = is_due now row && not (locked row.id)

is_in-claimable :
    (locked : ℕ → Bool) (now : Time) (limit : ℕ) (items : List QueueItem) {item : QueueItem}
    → get_item item.id items ≡ some item
    → is_claimable locked now item ≡ true
    → length (where_true (is_claimable locked now) items) ≤ limit
    → is_in (claimable locked now limit items) item ≡ true
unfolding get_item claimable
is_in-claimable locked now limit items {item} found due room =
    let rows = where_true (is_claimable locked now) items in
    let size : length (sort_by claims_before rows) ≤ limit =
      rw (length-sort_by claims_before rows) room in
    rw (take_all limit (sort_by claims_before rows) size) (
      any_where-sort_by claims_before (λ row. row.id == item.id) rows
      ∙ any_where-where_true (λ row. row.id == item.id) (is_claimable locked now) items found due)

claimed_row-id :
    (rows : List QueueItem) (now : Time) (item : QueueItem)
    → (if is_in rows item then claim_item now item else item).id ≡ item.id
unfolding claim_item
claimed_row-id rows now item = elim (Bool-cases (is_in rows item)) [
  | inl e ↦ rw e refl
  | inr e ↦ rw e refl
]

-- Where the limit leaves room for all rows that are due and not locked, a claim takes each of them.
pub claim_batch-due :
    (locked : ℕ → Bool) (now : Time) (limit id : ℕ) (items : List QueueItem) {item : QueueItem}
    → get_item id items ≡ some item
    → is_claimable locked now item ≡ true
    → length (where_true (is_claimable locked now) items) ≤ limit
    → get_item id (claim_batch locked now limit items).1 ≡ some (claim_item now item)
unfolding get_item claim_batch
claim_batch-due locked now limit id items {item} found due room =
    let rows = claimable locked now limit items in
    let own : get_item item.id items ≡ some item =
      subst (λ i. get_item i items ≡ some item) (sym (get_item-id id items found)) found in
    let taken = is_in-claimable locked now limit items own due room in
    let change : QueueItem → QueueItem =
      λ row. if is_in rows row then claim_item now row else row in
    let after =
      first_where-map (λ row. row.id == id) change items
        (λ row. ap (λ i. i == id) (claimed_row-id rows now row)) found in
    after ∙ rw taken

or_right : (a b : Bool) → b ≡ true → (a || b) ≡ true
or_right true b h = refl
or_right false b h = h

is_claimable-waits :
    (now : Time) (item : QueueItem) {due_at : Time}
    → is_retry_wait item.status ≡ true
    → item.next_retry_at ≡ some due_at
    → due_at ≤ now
    → is_claimable (λ _. false) now item ≡ true
is_claimable-waits now item {due_at} waits at later =
    let passed : leb due_at now ≡ true = ground arith in
    let due : is_retry_due now item ≡ true = rw waits (rw at passed) in
    rw (or_right (is_pending item.status) (is_retry_due now item) due) refl

where_true-same :
    (now : Time) (items : List QueueItem)
    → where_true (is_claimable (λ _. false) now) items ≡ where_true (is_due now) items
where_true-same now [] = refl
where_true-same now (row ∷ rows) = elim (Bool-cases (is_due now row)) [
  | inl e ↦ rw (e, where_true-same now rows) refl
  | inr e ↦ rw (e, where_true-same now rows) refl
]

-- In any history of the queue that begins without rows, an item that waits for a retry has a time for
-- it, and from that time on it is taken by every claim that has room for all rows that are due, and
-- that meets no lock.
pub Reach-claimed :
    (settings : Settings) (start queue : Queue) (id now limit : ℕ) {item : QueueItem}
    → start.items ≡ []
    → Reach settings start queue
    → get_item id queue.items ≡ some item
    → is_retry_wait item.status ≡ true
    → length (where_true (is_due now) queue.items) ≤ limit
    → (due_at : Time) × (item.next_retry_at ≡ some due_at)
      × ((now < due_at)
          ⊎ (get_item id (claim_batch (λ _. false) now limit queue.items).1
              ≡ some (claim_item now item)))
unfolding get_item
Reach-claimed settings start queue id now limit {item} empty history found waits room =
    let all = Reach-IsWaiting settings start queue (rw empty tt) history in
    elim (All-first_where (IsWaiting settings) (λ row. row.id == id) queue.items all found).0 [
      | inl h ↦ cc
      | inr h ↦ (
        h.1,
        h.2,
        elim (le_cases h.1 now) [
          | inl later ↦ inr (
              claim_batch-due (λ _. false) now limit id queue.items found
                (is_claimable-waits now item waits h.2 later)
                (rw (where_true-same now queue.items) room))
          | inr early ↦ inl early
        ],
      )
    ]
