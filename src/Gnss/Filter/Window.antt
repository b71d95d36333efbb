-- ===== src/Gnss/Filter/Window.antt =====
-- `consider_candidate` over a whole timer window, against the best of a list.
use esp32_wifi_gnss.Prelude.{
  ℕ, ◌≡◌, refl, ap, ◌∙◌, sym, subst, Bool, true, false, Option, none, some, List, [], ◌∷◌, ◌++◌,
  append-nil, All, All-append, ltb_ℤ, ◌≤ℤ◌, ◌<ℤ◌, ◌==◌, if◌then◌else◌, Bool-cases, Option-cases,
  inl, inr, arith,
}
use esp32_wifi_gnss.Gnss.{Candidate}
use esp32_wifi_gnss.Gnss.Filter.{FilterState, still_best, consider_candidate, consider_all}

-- The specification: the first of the candidates with the least HDOP.
abbrev pub better : Candidate → Option Candidate → Option Candidate
better c none = some c
better c (some d) = if ltb_ℤ d.hdop_milli c.hdop_milli then some d else some c

unfoldable pub best_of : List Candidate → Option Candidate
best_of [] = none
best_of (c ∷ cs) = better c (best_of cs)

-- The candidates of one source generation.
unfoldable pub of_epoch : ℕ → List Candidate → List Candidate
of_epoch epoch [] = []
of_epoch epoch (c ∷ cs) =
    let rest = of_epoch epoch cs in if c.input_epoch == epoch then c ∷ rest else rest

-- The candidate that the filter would publish.
abbrev pub held : ℕ → FilterState → List Candidate
held epoch s = if still_best epoch s then s.best_candidate ∷ [] else []

-- What `best_of` gives is one of the candidates, strictly better than those before it and no worse
-- than those behind it.
pub record IsBest (c : Candidate) (cs : List Candidate) : Type 0 where
  pub before : List Candidate
  pub behind : List Candidate
  pub listed : cs ≡ before ++ c ∷ behind
  pub beats : All (λ d. c.hdop_milli <ℤ d.hdop_milli) before
  pub least : All (λ d. c.hdop_milli ≤ℤ d.hdop_milli) behind

best_of-none : (cs : List Candidate) → best_of cs ≡ none → cs ≡ []
unfolding best_of
best_of-none [] h = refl
best_of-none (c ∷ cs) h = elim (Option-cases (best_of cs)) [
  | inl e ↦ ground (arith, e)
  | inr (d, e) ↦ ground (arith, e)
]

better-fold :
    (b c : Candidate) (o : Option Candidate)
    → better b (better c o) ≡ better (if ltb_ℤ c.hdop_milli b.hdop_milli then c else b) o
better-fold b c none = ground arith
better-fold b c (some d) = ground arith

consider-held :
    (epoch : ℕ) (s : FilterState) (c : Candidate) (rest : List Candidate)
    → best_of (held epoch (consider_candidate epoch s c) ++ rest)
      ≡ best_of (held epoch s ++ (if c.input_epoch == epoch then c ∷ rest else rest))
unfolding consider_candidate best_of
consider-held epoch s c rest = ground (arith, better-fold s.best_candidate c (best_of rest))

-- After any candidates, of whatever generation, what the filter would publish is the best of what
-- it held and of those that came from the current source.
pub consider_all-best :
    (epoch : ℕ) (s : FilterState) (cs : List Candidate)
    → best_of (held epoch (consider_all epoch s cs)) ≡ best_of (held epoch s ++ of_epoch epoch cs)
unfolding consider_all of_epoch
consider_all-best epoch s [] = ap best_of (sym (append-nil (held epoch s)))
consider_all-best epoch s (c ∷ cs) =
    consider_all-best epoch (consider_candidate epoch s c) cs
    ∙ consider-held epoch s c (of_epoch epoch cs)

abbrev NoBetter : Candidate → List Candidate → Type 0
NoBetter c = All (λ d. c.hdop_milli ≤ℤ d.hdop_milli)

abbrev Worse : Candidate → List Candidate → Type 0
Worse c = All (λ d. c.hdop_milli <ℤ d.hdop_milli)

NoBetter-trans :
    (x d : Candidate) (cs : List Candidate)
    → x.hdop_milli ≤ℤ d.hdop_milli
    → NoBetter d cs
    → NoBetter x cs
NoBetter-trans x d [] h a = tt
NoBetter-trans x d (c ∷ cs) h a = (omega arith, NoBetter-trans x d cs h a.1)

NoBetter-of_Worse : (d : Candidate) (cs : List Candidate) → Worse d cs → NoBetter d cs
NoBetter-of_Worse d [] a = tt
NoBetter-of_Worse d (c ∷ cs) a = (omega arith, NoBetter-of_Worse d cs a.1)

-- All of the list, seen from its best.
IsBest-NoBetter : (d : Candidate) (cs : List Candidate) → IsBest d cs → NoBetter d cs
IsBest-NoBetter d cs b = subst (NoBetter d) (sym b.listed) (
    All-append _ b.before (d ∷ b.behind) (NoBetter-of_Worse d b.before b.beats)
      (omega arith, b.least))

IsBest-keep :
    (x d : Candidate) (cs : List Candidate)
    → IsBest d cs
    → d.hdop_milli <ℤ x.hdop_milli
    → IsBest d (x ∷ cs)
IsBest-keep x d cs b h = record {
  before = x ∷ b.before;
  behind = b.behind;
  listed = ap (◌∷◌ x) b.listed;
  beats = (h, b.beats);
  least = b.least;
}

IsBest-first : (x : Candidate) (cs : List Candidate) → NoBetter x cs → IsBest x (x ∷ cs)
IsBest-first x cs h = record { before = []; behind = cs; listed = refl; beats = tt; least = h }

-- `best_of` finds a candidate with the least HDOP, the first such one, unless there is none.
pub best_of-IsBest : (cs : List Candidate) (c : Candidate) → best_of cs ≡ some c → IsBest c cs
unfolding best_of
best_of-IsBest [] c h = absurd (ground arith)
best_of-IsBest (x ∷ cs) c h = elim (Option-cases (best_of cs)) [
  | inl e ↦
      subst (λ t. IsBest t (x ∷ cs)) (ground arith)
        (IsBest-first x cs (subst (NoBetter x) (sym (best_of-none cs e)) tt))
  | inr (d, e) ↦
      let b = best_of-IsBest cs d e in
      elim (Bool-cases (ltb_ℤ d.hdop_milli x.hdop_milli)) [
        | inl lower ↦
            subst (λ t. IsBest t (x ∷ cs)) (ground arith) (IsBest-keep x d cs b (ground arith))
        | inr not_lower ↦
            subst (λ t. IsBest t (x ∷ cs)) (ground arith)
              (IsBest-first x cs (NoBetter-trans x d cs (ground arith) (IsBest-NoBetter d cs b)))
      ]
]

best_of-nil : best_of [] ≡ none
unfolding best_of
best_of-nil = refl

held-full :
    (epoch : ℕ) (s : FilterState)
    → still_best epoch s ≡ true
    → best_of (held epoch s) ≡ some s.best_candidate
unfolding best_of
held-full epoch s h = ap (λ (b : Bool). best_of (if b then s.best_candidate ∷ [] else [])) h

held-empty : (epoch : ℕ) (s : FilterState) → still_best epoch s ≡ false → held epoch s ≡ []
held-empty epoch s h = ap (λ (b : Bool). if b then s.best_candidate ∷ [] else []) h

right-nil : (xs ys : List Candidate) → xs ++ ys ≡ [] → ys ≡ []
right-nil [] ys h = h
right-nil (x ∷ xs) ys h = cc

-- The end of a window: if the filter, which held nothing for the current source, would publish `c`
-- after the candidates `cs`, then `c` is the first of the current source's candidates among `cs`
-- with the least HDOP.
pub window-IsBest :
    (epoch : ℕ) (s : FilterState) (cs : List Candidate)
    → still_best epoch s ≡ false
    → let s' = consider_all epoch s cs in
      still_best epoch s' ≡ true → IsBest s'.best_candidate (of_epoch epoch cs)
window-IsBest epoch s cs empty full = best_of-IsBest (of_epoch epoch cs) _ (
    ap (λ l. best_of (l ++ of_epoch epoch cs)) (sym (held-empty epoch s empty))
    ∙ sym (consider_all-best epoch s cs)
    ∙ held-full epoch (consider_all epoch s cs) full)

-- And if it would publish nothing, none of them came from the current source.
pub window-none :
    (epoch : ℕ) (s : FilterState) (cs : List Candidate)
    → still_best epoch (consider_all epoch s cs) ≡ false
    → of_epoch epoch cs ≡ []
window-none epoch s cs none_held = right-nil (held epoch s) (of_epoch epoch cs) (
    best_of-none _ (
      sym (consider_all-best epoch s cs)
      ∙ ap best_of (held-empty epoch (consider_all epoch s cs) none_held)
      ∙ best_of-nil))
