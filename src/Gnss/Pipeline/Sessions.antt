-- ===== src/Gnss/Pipeline/Sessions.antt =====
-- What each source of the pipeline of main/gnss.c has sent, as a history of sessions beside the
-- steps: a session is what arrives from one source, the UART or one upload, until the source changes
-- or the parser is cleared.
use esp32_wifi_gnss.Prelude.{
  ◌⊎◌, not, ◌||◌, none, some, List, [], ◌∷◌, ◌++◌, Bytes, take, inl, inr, either, if◌then◌else◌,
}
use esp32_wifi_gnss.Rtos.{Rtos}
use esp32_wifi_gnss.Gnss.{Candidate, Publication}
use esp32_wifi_gnss.Gnss.Filter.Publish.{Holds}
use esp32_wifi_gnss.Gnss.Parser.Heard.{InOrder, more-InOrder}
use esp32_wifi_gnss.Gnss.Pipeline.{Pipeline}
use esp32_wifi_gnss.Gnss.Pipeline.Genuine.{IsSent}
use esp32_wifi_gnss.Gnss.Pipeline.Steps.{
  Step, uart, timer, filters, receives, begins, feeds, closes, flushes, finishes, clears, Reach,
  here, next,
}

-- The bytes of the sessions, the current one first.
abbrev pub Sessions : Type 0
Sessions = List Bytes

-- The current session goes on.
abbrev pub extend : Bytes → Sessions → Sessions
extend bytes [] = bytes ∷ []
extend bytes (s ∷ ss) = (s ++ bytes) ∷ ss

-- Both lines of the candidate stand in one session, the GGA before the RMC.
abbrev pub InOne : Candidate → Sessions → Type 0
InOne c [] = ⊥
InOne c (s ∷ ss) = InOrder s c ⊎ InOne c ss

-- A publication that holds the lines of such a candidate.
pub record IsOfOneSource (ss : Sessions) (p : Publication) : Type 0 where
  pub candidate : Candidate
  pub sent : IsSent candidate
  pub holds : Holds candidate p
  pub origin : InOne candidate ss

pub extend-InOne :
    (bytes : Bytes) (ss : Sessions) (c : Candidate) → InOne c ss → InOne c (extend bytes ss)
extend-InOne bytes [] c h = elim h [ ]
extend-InOne bytes (s ∷ ss) c (inl h) = inl (more-InOrder s bytes c h)
extend-InOne bytes (s ∷ ss) c (inr h) = inr h

-- What a longer history keeps.
abbrev pub Grows : Sessions → Sessions → Type 0
Grows ss more = (c : Candidate) → InOne c ss → InOne c more

pub grow-IsOfOneSource :
    (ss more : Sessions)
    → Grows ss more
    → (p : Publication) → IsOfOneSource ss p
    → IsOfOneSource more p
grow-IsOfOneSource ss more grow p h = record {
  candidate = h.candidate;
  sent = h.sent;
  holds = h.holds;
  origin = grow h.candidate h.origin;
}

module _ (rtos : Rtos) where
  -- What one step adds. The UART is heard while no upload is active, an upload while it is active
  -- and not closing; its begin and its end, and the start of the initialisation, open a session.
  abbrev pub step_sessions : {g h : Pipeline rtos} → Step rtos g h → Sessions → Sessions
  step_sessions {g} (uart bytes) ss = if not g.input_override_active then extend bytes ss else ss
  step_sessions {g} timer ss = ss
  step_sessions {g} filters ss = ss
  step_sessions {g} receives ss = ss
  step_sessions {g} begins ss = if g.input_override_active then ss else [] ∷ ss
  step_sessions {g} (feeds none len) ss = ss
  step_sessions {g} (feeds (some bytes) len) ss =
      if not g.input_override_active || g.input_override_closing
      then ss
      else extend (take len bytes) ss
  step_sessions {g} closes ss = ss
  step_sessions {g} (flushes control) ss = ss
  step_sessions {g} finishes ss = [] ∷ ss
  step_sessions {g} clears ss = [] ∷ ss

  abbrev pub sessions : {start g : Pipeline rtos} → Reach rtos start g → Sessions
  sessions here = [] ∷ []
  sessions (next r s) = step_sessions s (sessions r)

  -- No step takes anything from the history.
  pub Step-Grows :
      {g h : Pipeline rtos} (ss : Sessions) (s : Step rtos g h) → Grows ss (step_sessions s ss)
  Step-Grows {g} ss (uart bytes) c i =
      either (InOne c) (not g.input_override_active) _ _ (extend-InOne bytes ss c i) i
  Step-Grows {g} ss timer c i = i
  Step-Grows {g} ss filters c i = i
  Step-Grows {g} ss receives c i = i
  Step-Grows {g} ss begins c i = either (InOne c) g.input_override_active _ _ i (inr i)
  Step-Grows {g} ss (feeds none len) c i = i
  Step-Grows {g} ss (feeds (some bytes) len) c i =
      either (InOne c) (not g.input_override_active || g.input_override_closing) _ _ i
        (extend-InOne (take len bytes) ss c i)
  Step-Grows {g} ss closes c i = i
  Step-Grows {g} ss (flushes control) c i = i
  Step-Grows {g} ss finishes c i = inr i
  Step-Grows {g} ss clears c i = inr i
