-- ===== src/Rtos.antt =====
-- The part of FreeRTOS that the firmware calls, as an interface: bounded queues, counting and
-- binary semaphores, and queue sets. The kernel is not part of the repository; the laws below are
-- its documented behaviour, read through the items that a queue holds, oldest first, the count of a
-- semaphore, and the members that a set has ready, in the order in which they were sent to.
-- A call that waits with `portMAX_DELAY` returns only when it succeeds; the models take such a
-- step only where it can.
pub mod Simple
pub mod Token
use esp32_wifi_gnss.Prelude.{
  ℕ, suc, ◌+◌, ◌-◌, ◌≤◌, ◌<◌, ◌≡◌, ◌⊎◌, ap, ◌∙◌, Bool, true, false, Option, none, some, List, [],
  ◌∷◌, ◌++◌, length, ltb, ◌==◌, if◌then◌else◌,
}

pub record Rtos : Type 1 where
  pub Queue : Type 0 → Type 0
  pub items : {A : Type 0} → Queue A → List A
  pub capacity : {A : Type 0} → Queue A → ℕ
  pub send : {A : Type 0} → Queue A → A → Bool × Queue A
  pub overwrite : {A : Type 0} → Queue A → A → Queue A
  pub receive : {A : Type 0} → Queue A → Option (A × Queue A)
  pub items-send :
      {A : Type 0} (q : Queue A) (a : A)
      → items (send q a).1
        ≡ (if ltb (length (items q)) (capacity q) then items q ++ a ∷ [] else items q)
  pub sent-send :
      {A : Type 0} (q : Queue A) (a : A) → (send q a).0 ≡ ltb (length (items q)) (capacity q)
  pub capacity-send : {A : Type 0} (q : Queue A) (a : A) → capacity (send q a).1 ≡ capacity q
  -- `xQueueOverwrite` is for queues of length one.
  pub items-overwrite : {A : Type 0} (q : Queue A) (a : A) → items (overwrite q a) ≡ a ∷ []
  pub capacity-overwrite :
      {A : Type 0} (q : Queue A) (a : A) → capacity (overwrite q a) ≡ capacity q
  pub receive-items :
      {A : Type 0} (q : Queue A)
      → ((items q ≡ []) × (receive q ≡ none))
        ⊎ ((a : A) × (q' : Queue A) × (items q ≡ a ∷ items q')
            × (receive q ≡ some (a, q'))
            × (capacity q' ≡ capacity q))
  pub Semaphore : Type 0
  pub count : Semaphore → ℕ
  pub limit : Semaphore → ℕ
  pub take_sem : Semaphore → Bool × Semaphore
  pub give_sem : Semaphore → Semaphore
  pub taken : (s : Semaphore) → (take_sem s).0 ≡ ltb 0 (count s)
  pub count-take : (s : Semaphore) → count (take_sem s).1 ≡ count s - 1
  pub limit-take : (s : Semaphore) → limit (take_sem s).1 ≡ limit s
  pub count-give :
      (s : Semaphore)
      → count (give_sem s) ≡ (if ltb (count s) (limit s) then suc (count s) else count s)
  pub limit-give : (s : Semaphore) → limit (give_sem s) ≡ limit s
  pub QueueSet : Type 0 → Type 0
  pub pending : {M : Type 0} → QueueSet M → List M
  pub mark : {M : Type 0} → QueueSet M → M → QueueSet M
  pub select : {M : Type 0} → QueueSet M → Option (M × QueueSet M)
  pub pending-mark :
      {M : Type 0} (s : QueueSet M) (m : M) → pending (mark s m) ≡ pending s ++ m ∷ []
  pub select-pending :
      {M : Type 0} (s : QueueSet M)
      → ((pending s ≡ []) × (select s ≡ none))
        ⊎ ((m : M) × (s' : QueueSet M) × (pending s ≡ m ∷ pending s') × (select s ≡ some (m, s')))

-- Sending to a member of a queue set marks the member in the set, once for each item added.
-- Overwriting adds an item only to an empty queue.
module _ (rtos : Rtos) {A M : Type 0} where
  open rtos use {Queue, QueueSet, items, send, overwrite, mark}

  unfoldable pub send_member : QueueSet M → M → Queue A → A → Bool × Queue A × QueueSet M
  send_member set m q a = let (sent, q') = send q a in (sent, q', if sent then mark set m else set)

  unfoldable pub overwrite_member : QueueSet M → M → Queue A → A → Queue A × QueueSet M
  overwrite_member set m q a = (overwrite q a, if length (items q) == 0 then mark set m else set)

module _ (rtos : Rtos) {A : Type 0} (q : rtos.Queue A) (a : A) where
  open rtos use {items, capacity, send, items-send}

  pub items-send_room :
      ltb (length (items q)) (capacity q) ≡ true → items (send q a).1 ≡ items q ++ a ∷ []
  items-send_room h = items-send q a ∙ ap (λ b. if b then items q ++ a ∷ [] else items q) h

  pub items-send_full : ltb (length (items q)) (capacity q) ≡ false → items (send q a).1 ≡ items q
  items-send_full h = items-send q a ∙ ap (λ b. if b then items q ++ a ∷ [] else items q) h
