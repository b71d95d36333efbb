-- ===== src/Http/Write/Marks.antt =====
-- The marks of the candidate queue and of the control queue in `s_filter_queue_set`.
use esp32_wifi_gnss.Prelude.{ℕ, ◌+◌, ◌≡◌, refl, List, [], ◌∷◌, ◌++◌, arith}
use esp32_wifi_gnss.Gnss.Pipeline.{Member, candidate_member, timer_member, control_member}

abbrev pub candidates_in : List Member → ℕ
candidates_in [] = 0
candidates_in (candidate_member ∷ l) = 1 + candidates_in l
candidates_in (timer_member ∷ l) = candidates_in l
candidates_in (control_member ∷ l) = candidates_in l

abbrev pub controls_in : List Member → ℕ
controls_in [] = 0
controls_in (candidate_member ∷ l) = controls_in l
controls_in (timer_member ∷ l) = controls_in l
controls_in (control_member ∷ l) = 1 + controls_in l

-- The candidates marked behind the first control.
abbrev pub behind_control : List Member → ℕ
behind_control [] = 0
behind_control (candidate_member ∷ l) = behind_control l
behind_control (timer_member ∷ l) = behind_control l
behind_control (control_member ∷ l) = candidates_in l

pub candidates_in-append :
    (l : List Member) (k : List Member) → candidates_in (l ++ k) ≡ candidates_in l + candidates_in k
candidates_in-append [] k = omega arith
candidates_in-append (candidate_member ∷ l) k = omega (arith, candidates_in-append l k)
candidates_in-append (timer_member ∷ l) k = candidates_in-append l k
candidates_in-append (control_member ∷ l) k = candidates_in-append l k

pub controls_in-append :
    (l : List Member) (k : List Member) → controls_in (l ++ k) ≡ controls_in l + controls_in k
controls_in-append [] k = omega arith
controls_in-append (candidate_member ∷ l) k = controls_in-append l k
controls_in-append (timer_member ∷ l) k = controls_in-append l k
controls_in-append (control_member ∷ l) k = omega (arith, controls_in-append l k)

pub behind_control-timer :
    (l : List Member) → behind_control (l ++ timer_member ∷ []) ≡ behind_control l
behind_control-timer [] = refl
behind_control-timer (candidate_member ∷ l) = behind_control-timer l
behind_control-timer (timer_member ∷ l) = behind_control-timer l
behind_control-timer (control_member ∷ l) =
    omega (arith, candidates_in-append l (timer_member ∷ []))

pub behind_control-control :
    (l : List Member) → controls_in l ≡ 0 → behind_control (l ++ control_member ∷ []) ≡ 0
behind_control-control [] h = refl
behind_control-control (candidate_member ∷ l) h = behind_control-control l h
behind_control-control (timer_member ∷ l) h = behind_control-control l h
behind_control-control (control_member ∷ l) h = absurd (omega (arith, h))
