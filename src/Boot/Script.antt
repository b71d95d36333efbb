-- ===== src/Boot/Script.antt =====
-- The calls of a start that succeeds, and that any failure ends it.
use esp32_wifi_gnss.Prelude.{
  ℕ, ◌≡◌, refl, sym, ap, ◌∙◌, subst, Bool, true, false, ◌&&◌, List, [], ◌∷◌, ◌++◌, append-nil,
  append_assoc, if◌then◌else◌, inl, inr, Bool-cases, arith,
}
use esp32_wifi_gnss.Esp.{EspErr, err_no_mem}
use esp32_wifi_gnss.Boot.{
  Call, Exit, goes_on, leaves, aborts, Boot, succeeds, ◌then◌, or_leave, check, check_function,
  all_succeed, create_all,
}

-- The function does not go on.
abbrev pub Stops : Exit → Type 0
Stops exit = exit ≡ goes_on → ⊥

abbrev pub Aborts : Exit → Type 0
Aborts exit = exit ≡ aborts

module _ (answers : ℕ → Call → EspErr) where
  all_succeed-append :
      (l k calls : List Call)
      → all_succeed answers calls (l ++ k)
        ≡ (all_succeed answers calls l && all_succeed answers (calls ++ l) k)
  all_succeed-append [] k calls = ap (λ c. all_succeed answers c k) (sym (append-nil calls))
  all_succeed-append (c ∷ l) k calls =
      let e = all_succeed-append l k (calls ++ c ∷ []) in
      let shift : calls ++ c ∷ [] ++ l ≡ calls ++ (c ∷ l) = append_assoc calls (c ∷ []) l in
      ground (arith, e, ap (λ x. all_succeed answers x k) shift)

  -- The function makes the calls `l`, if they all succeed; or else it ends as `Q` says.
  abbrev pub Follows : (Exit → Type 0) → List Call → Boot → Type 0
  Follows Q l m =
      (calls : List Call)
      → (all_succeed answers calls l ≡ true → m calls ≡ (goes_on, calls ++ l))
        × (all_succeed answers calls l ≡ false → Q (m calls).0)

  one-Follows :
      (Q : Exit → Type 0) (stop : Exit) (c : Call)
      → Q stop
      → Follows Q
          (c ∷ [])
          (λ calls. (if succeeds answers calls c then goes_on else stop, calls ++ c ∷ []))
  one-Follows Q stop c q calls = elim (Bool-cases (succeeds answers calls c)) [
    | inl ok ↦ rw ok (λ h. refl, λ h. absurd cc)
    | inr bad ↦ rw bad (λ h. absurd cc, λ h. q)
  ]

  pub check-Follows : (c : Call) → Follows Aborts (c ∷ []) (check answers c)
  check-Follows c = one-Follows Aborts aborts c refl

  pub or_leave-Follows : (err : EspErr) (c : Call) → Follows Stops (c ∷ []) (or_leave answers err c)
  or_leave-Follows err c = one-Follows Stops (leaves err) c (λ e. cc)

  pub create_all-Follows : (l : List Call) → Follows Stops l (create_all answers l)
  create_all-Follows l calls = (
    λ ok. ap (λ b. (if b then goes_on else leaves err_no_mem, calls ++ l)) ok,
    λ bad. subst (λ b. Stops (if b then goes_on else leaves err_no_mem)) (sym bad) (λ e. cc),
  )

  pub nothing-Follows : (Q : Exit → Type 0) → Follows Q [] (λ calls. (goes_on, calls))
  nothing-Follows Q calls =
      (λ ok. ap (λ l. (goes_on, l)) (sym (append-nil calls)), λ bad. absurd cc)

  pub weaker-Follows : (l : List Call) (m : Boot) → Follows Aborts l m → Follows Stops l m
  weaker-Follows l m f calls = ((f calls).0, λ bad e. absurd (differs (sym ((f calls).1 bad) ∙ e)))
    where
      differs : aborts ≡ goes_on → ⊥
      differs e = cc

  -- A function under ESP_ERROR_CHECK.
  pub check_function-Follows :
      (l : List Call) (m : Boot) → Follows Stops l m → Follows Aborts l (check_function answers m)
  check_function-Follows l m f calls =
      (λ ok. ap wrap ((f calls).0 ok), λ bad. stopped (m calls) ((f calls).1 bad))
    where
      wrap : Exit × List Call → Exit × List Call
      wrap r = elim r.0 [
        | goes_on ↦ (goes_on, r.1)
        | leaves err ↦ (aborts, r.1)
        | aborts ↦ (aborts, r.1)
      ]

      stopped : (r : Exit × List Call) → Stops r.0 → Aborts (wrap r).0
      stopped (goes_on, l) s = absurd (s refl)
      stopped (leaves err, l) s = refl
      stopped (aborts, l) s = refl

  -- The same, where the test and the calls depend on what was called before.
  abbrev pub Runs : (Exit → Type 0) → (List Call → Bool) → (List Call → List Call) → Boot → Type 0
  Runs Q test script m =
      (calls : List Call)
      → (test calls ≡ true → m calls ≡ (goes_on, calls ++ script calls))
        × (test calls ≡ false → Q (m calls).0)

  module _ (Q : Exit → Type 0) (stops : Q goes_on → ⊥) where
    pub then-Runs :
        (t u : List Call → Bool) (l k : List Call → List Call) (m n : Boot)
        → Runs Q t l m
        → Runs Q u k n
        → Runs Q
            (λ calls. t calls && u (calls ++ l calls))
            (λ calls. l calls ++ k (calls ++ l calls))
            (◌then◌ answers m n)
    then-Runs t u l k m n f g calls = elim (Bool-cases (t calls)) [
      | inl first ↦
          let e = (f calls).0 first in
          let whole : (t calls && u (calls ++ l calls)) ≡ u (calls ++ l calls) =
            ap (λ b. b && u (calls ++ l calls)) first in
          (
            λ ok.
                ap bind e
                ∙ (g (calls ++ l calls)).0 (sym whole ∙ ok)
                ∙ ap (λ x. (goes_on, x)) (append_assoc calls (l calls) (k (calls ++ l calls))),
            λ bad. subst (λ r. Q (bind r).0) (sym e) ((g (calls ++ l calls)).1 (sym whole ∙ bad)),
          )
      | inr failed ↦
          let whole : (t calls && u (calls ++ l calls)) ≡ false =
            ap (λ b. b && u (calls ++ l calls)) failed in
          (λ ok. absurd (clash (sym whole ∙ ok)), λ bad. stopped (m calls) ((f calls).1 failed))
    ]
      where
        bind : Exit × List Call → Exit × List Call
        bind r = elim r.0 [
          | goes_on ↦ n r.1
          | leaves err ↦ (leaves err, r.1)
          | aborts ↦ (aborts, r.1)
        ]

        stopped : (r : Exit × List Call) → Q r.0 → Q (bind r).0
        stopped (goes_on, l) s = absurd (stops s)
        stopped (leaves err, l) s = s
        stopped (aborts, l) s = s

        clash : false ≡ true → ⊥
        clash e = cc

    pub then-Follows :
        (l k : List Call) (m n : Boot)
        → Follows Q l m
        → Follows Q k n
        → Follows Q (l ++ k) (◌then◌ answers m n)
    then-Follows l k m n f g calls =
        let (ok, bad) =
          then-Runs (λ c. all_succeed answers c l) (λ c. all_succeed answers c k) (λ _. l) (λ _. k)
            m n f g calls in
        let whole = all_succeed-append l k calls in
        (λ h. ok (sym whole ∙ h), λ h. bad (sym whole ∙ h))
