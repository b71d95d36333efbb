-- ===== src/Rtos/Token.antt =====
-- A counting semaphore that guards a queue of `n` places and `n` workers: `n` tokens go round between
-- the semaphore, the queue and the workers that are not waiting.
use esp32_wifi_gnss.Prelude.{
  ℕ, suc, ◌+◌, ◌≤◌, ◌≡◌, refl, ap, ◌∙◌, true, false, List, [], ◌∷◌, length, ltb, length-append,
  arith,
}
use esp32_wifi_gnss.Rtos.{Rtos, items-send_room}

module _ (rtos : Rtos) (n : ℕ) {A : Type 0} where
  open rtos use {
    Queue, Semaphore, items, capacity, count, limit, send, take_sem, give_sem, taken, count-take,
    limit-take, count-give, limit-give, sent-send, capacity-send,
  }

  -- `busy` workers hold a token.
  pub record Token (sem : Semaphore) (q : Queue A) (busy : ℕ) : Type 0 where
    pub tokens : count sem + (length (items q) + busy) ≡ n
    pub room : capacity q ≡ n
    pub top : limit sem ≡ n

  module _ (sem : Semaphore) (q : Queue A) (busy : ℕ) where
    pub refused-Token : Token sem q busy → (take_sem sem).0 ≡ false → Token (take_sem sem).1 q busy
    refused-Token v missed = record {
      tokens = ground (arith, count-take sem, taken sem);
      room = v.room;
      top = limit-take sem ∙ v.top;
    }

    pub given_back-Token :
        Token sem q busy → (take_sem sem).0 ≡ true → Token (give_sem (take_sem sem).1) q busy
    given_back-Token v got = record {
      tokens =
          ground (arith, count-take sem, taken sem, count-give (take_sem sem).1, limit-take sem);
      room = v.room;
      top = limit-give (take_sem sem).1 ∙ limit-take sem ∙ v.top;
    }

    -- Whoever has taken the semaphore finds room in the queue.
    pub sent-Token :
        (a : A)
        → Token sem q busy
        → (take_sem sem).0 ≡ true
        → ((send q a).0 ≡ true) × Token (take_sem sem).1 (send q a).1 busy
    sent-Token a v got =
        let one : 1 ≤ count sem = ground (arith, taken sem) in
        let free : ltb (length (items q)) (capacity q) ≡ true = ground arith in
        (
          sent-send q a ∙ free,
          record {
            tokens = omega (
              arith,
              count-take sem,
              ap length (items-send_room rtos q a free),
              length-append (items q) (a ∷ []),
            );
            room = capacity-send q a ∙ v.room;
            top = limit-take sem ∙ v.top;
          },
        )

    pub signalled-Token : Token sem q (suc busy) → Token (give_sem sem) q busy
    signalled-Token v = record {
      tokens = ground (arith, v.tokens, count-give sem, v.top);
      room = v.room;
      top = limit-give sem ∙ v.top;
    }

    pub received-Token :
        (a : A) (q' : Queue A)
        → Token sem q busy
        → items q ≡ a ∷ items q'
        → capacity q' ≡ capacity q
        → Token sem q' (suc busy)
    received-Token a q' v listed kept = record {
      tokens = omega (arith, v.tokens, ap length listed);
      room = kept ∙ v.room;
      top = v.top;
    }

-- No token in the queue.
pub empty-of_length : {A : Type 0} (l : List A) → length l ≡ 0 → l ≡ []
empty-of_length [] h = refl
empty-of_length (x ∷ l) h = absurd (omega (arith, h))
