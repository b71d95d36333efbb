-- ===== src/Rtos/Simple.antt =====
-- The interface can be met: queues as lists with a capacity, semaphores as counts.
use esp32_wifi_gnss.Prelude.{
  ℕ, suc, ◌-◌, ◌≡◌, ◌⊎◌, refl, inl, inr, Bool, true, false, Option, none, some, List, [], ◌∷◌, ◌++◌,
  length, ltb, if◌then◌else◌, arith,
}
use esp32_wifi_gnss.Rtos.{Rtos}

pub record SimpleQueue (A : Type 0) : Type 0 where
  pub held : List A
  pub room : ℕ

pub record SimpleSemaphore : Type 0 where
  pub available : ℕ
  pub top : ℕ

abbrev pub simple_send : {A : Type 0} → SimpleQueue A → A → Bool × SimpleQueue A
simple_send q a =
    if ltb (length q.held) q.room then (true, record q { held = q.held ++ a ∷ [] }) else (false, q)

abbrev pub simple_receive_from : {A : Type 0} → List A → ℕ → Option (A × SimpleQueue A)
simple_receive_from [] n = none
simple_receive_from (a ∷ l) n = some (a, record { held = l; room = n })

abbrev pub simple_receive : {A : Type 0} → SimpleQueue A → Option (A × SimpleQueue A)
simple_receive q = simple_receive_from q.held q.room

abbrev pub simple_take : SimpleSemaphore → Bool × SimpleSemaphore
simple_take s = (ltb 0 s.available, record s { available = s.available - 1 })

abbrev pub simple_give : SimpleSemaphore → SimpleSemaphore
simple_give s = record s {
  available = if ltb s.available s.top then suc s.available else s.available;
}

abbrev pub simple_select : {M : Type 0} → List M → Option (M × List M)
simple_select [] = none
simple_select (m ∷ l) = some (m, l)

module _ {A : Type 0} where
  pub items-simple_send :
      (q : SimpleQueue A) (a : A)
      → (simple_send q a).1.held ≡ (if ltb (length q.held) q.room then q.held ++ a ∷ [] else q.held)
  items-simple_send q a = ground arith

  pub sent-simple_send :
      (q : SimpleQueue A) (a : A) → (simple_send q a).0 ≡ ltb (length q.held) q.room
  sent-simple_send q a = ground arith

  pub room-simple_send : (q : SimpleQueue A) (a : A) → (simple_send q a).1.room ≡ q.room
  room-simple_send q a = ground arith

  pub receive_from_items :
      (l : List A) (n : ℕ)
      → ((l ≡ []) × (simple_receive_from l n ≡ none))
        ⊎ ((a : A) × (q : SimpleQueue A) × (l ≡ a ∷ q.held)
            × (simple_receive_from l n ≡ some (a, q))
            × (q.room ≡ n))
  receive_from_items [] n = inl (refl, refl)
  receive_from_items (a ∷ l) n = inr (a, record { held = l; room = n }, refl, refl, refl)

  pub select_items :
      (l : List A)
      → ((l ≡ []) × (simple_select l ≡ none))
        ⊎ ((a : A) × (r : List A) × (l ≡ a ∷ r) × (simple_select l ≡ some (a, r)))
  select_items [] = inl (refl, refl)
  select_items (a ∷ l) = inr (a, l, refl, refl)

abbrev pub simple : Rtos
simple = record {
  Queue = SimpleQueue;
  items = λ q. q.held;
  capacity = λ q. q.room;
  send = simple_send;
  overwrite = λ q a. record q { held = a ∷ [] };
  receive = simple_receive;
  items-send = items-simple_send;
  sent-send = sent-simple_send;
  capacity-send = room-simple_send;
  items-overwrite = λ q a. refl;
  capacity-overwrite = λ q a. refl;
  receive-items = λ q. receive_from_items q.held q.room;
  Semaphore = SimpleSemaphore;
  count = λ s. s.available;
  limit = λ s. s.top;
  take_sem = simple_take;
  give_sem = simple_give;
  taken = λ s. refl;
  count-take = λ s. refl;
  limit-take = λ s. refl;
  count-give = λ s. refl;
  limit-give = λ s. refl;
  QueueSet = List;
  pending = λ s. s;
  mark = λ s m. s ++ m ∷ [];
  select = simple_select;
  pending-mark = λ s m. refl;
  select-pending = select_items;
}
