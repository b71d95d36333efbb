-- ===== src/Http/System.antt =====
-- The pipeline of main/gnss.c, the dispatcher of main/http_stream.c and the worker of one client,
-- interleaved in any order. The HTTP dispatcher is the only one that receives from the pipeline.
use esp32_wifi_gnss.Prelude.{
  ◌≡◌, refl, subst, sym, true, false, Option, none, some, [], ◌∷◌, All, All-append, All-map, inl,
  inr, either,
}
use esp32_wifi_gnss.Esp.{EspErr, is_ok}
use esp32_wifi_gnss.Rtos.{Rtos}
use esp32_wifi_gnss.Socket.{Peek}
use esp32_wifi_gnss.Led.{Led}
use esp32_wifi_gnss.Gnss.Pipeline.{Pipeline, publication_receive}
use esp32_wifi_gnss.Gnss.Pipeline.Genuine.{PipelineInv}
use esp32_wifi_gnss.Gnss.Pipeline.Steps.{Step, IsInitial}
use esp32_wifi_gnss.Gnss.Pipeline.Safety.{
  receive-PipelineInv, Step-PipelineInv, initial-PipelineInv,
}
use esp32_wifi_gnss.Gnss.Pipeline.Sessions.{
  Sessions, IsOfOneSource, step_sessions, grow-IsOfOneSource, Step-Grows,
}
use esp32_wifi_gnss.Gnss.Pipeline.Origin.{OriginInv}
use esp32_wifi_gnss.Gnss.Pipeline.OneSource.{receive-OriginInv, Step-OriginInv, initial-OriginInv}
use esp32_wifi_gnss.Http.{
  Snapshot, Client, stream_open, stream_round, snapshot_store, stream_client_is_connected,
}
use esp32_wifi_gnss.Http.Stream.{View, client_round, copy-cases}

module _ (rtos : Rtos) where
  open rtos use {items, receive, receive-items}

  pub record System : Type 0 where
    pub pipeline : Pipeline rtos
    pub view : View

  -- A round of `http_stack_task`; it waits while there is no publication.
  unfoldable pub http_stack_round : System → System
  unfolding publication_receive snapshot_store
  http_stack_round s =
      let (received, g) = publication_receive rtos s.pipeline in
      elim received [
        | none ↦ s
        | some publication ↦ record {
          pipeline = g;
          view = record s.view { snapshot = snapshot_store publication s.view.snapshot };
        }
      ]

  abbrev pub system_round : EspErr → Peek → System → System
  system_round err peek s = record s { view = client_round s.view.client.result err peek s.view }

  abbrev system_open : System → System
  system_open s = record s { view = record s.view { client = stream_open } }

  pub data SystemStep (s : System) : System → Type 0 where
    pipeline_runs :
        {h : Pipeline rtos} → Step rtos s.pipeline h → SystemStep s (record s { pipeline = h })
    dispatcher_runs : SystemStep s (http_stack_round s)
    client_opens : SystemStep s (system_open s)
    worker_runs : (err : EspErr) (peek : Peek) → SystemStep s (system_round err peek s)

  record SystemOk (ss : Sessions) (s : System) : Type 0 where
    pub pipeline_ok : PipelineInv rtos s.pipeline
    pub origin_ok : OriginInv rtos ss s.pipeline
    pub snapshot_ok :
        s.view.snapshot.has_latest_publication ≡ true
        → IsOfOneSource ss s.view.snapshot.latest_publication
    pub sent_ok : All (IsOfOneSource ss) s.view.client.sent

  abbrev ViewOk : Sessions → View → Type 0
  ViewOk ss v = All (IsOfOneSource ss) v.client.sent

  round_keeps_sent :
      (ss : Sessions) (result : Option EspErr) (err : EspErr) (peek : Peek) (v : View)
      → (v.snapshot.has_latest_publication ≡ true → IsOfOneSource ss v.snapshot.latest_publication)
      → ViewOk ss v
      → ViewOk ss (client_round result err peek v)
  unfolding stream_round
  round_keeps_sent ss (some left) err peek v h ok = ok
  round_keeps_sent ss none err peek v h ok = elim (copy-cases v.snapshot v.client.last_sequence) [
    | inl old ↦ rw (old, stream_round) (either P (stream_client_is_connected peek) _ _ ok ok)
    | inr (new, has, differs) ↦
        rw (new, stream_round)
          (either P (is_ok err) _ _
            (All-append (IsOfOneSource ss) v.client.sent (v.snapshot.latest_publication ∷ []) ok
              (h has, tt))
            ok)
  ]
    where
      P : Client × Led → Type 0
      P r = All (IsOfOneSource ss) r.0.sent

  round_keeps_snapshot :
      (result : Option EspErr) (err : EspErr) (peek : Peek) (v : View)
      → (client_round result err peek v).snapshot ≡ v.snapshot
  round_keeps_snapshot (some left) err peek v = refl
  round_keeps_snapshot none err peek v = refl

  dispatched-SystemOk :
      (ss : Sessions) (s : System) → SystemOk ss s → SystemOk ss (http_stack_round s)
  unfolding http_stack_round publication_receive snapshot_store
  dispatched-SystemOk ss s v = elim (receive-items s.pipeline.publication_queue) [
    | inl (none_left, e) ↦ rw (e, http_stack_round, publication_receive) v
    | inr (p, q, listed, e, kept) ↦
        let published = subst (All (IsOfOneSource ss)) listed v.origin_ok.published in
        rw (e, http_stack_round, publication_receive)
          (record {
            pipeline_ok = receive-PipelineInv rtos s.pipeline v.pipeline_ok;
            origin_ok = receive-OriginInv rtos ss s.pipeline v.origin_ok;
            snapshot_ok = λ has. published.0;
            sent_ok = v.sent_ok;
          })
  ]

  -- What a step adds to the history of sessions: only the pipeline's steps add to it.
  abbrev round_sessions : {s t : System} → SystemStep s t → Sessions → Sessions
  round_sessions (pipeline_runs step) ss = step_sessions rtos step ss
  round_sessions dispatcher_runs ss = ss
  round_sessions client_opens ss = ss
  round_sessions (worker_runs err peek) ss = ss

  SystemStep-SystemOk :
      {s t : System} (ss : Sessions) (step : SystemStep s t)
      → SystemOk ss s
      → SystemOk (round_sessions step ss) t
  SystemStep-SystemOk {s} ss (pipeline_runs step) v =
      let more = step_sessions rtos step ss in
      let grow = grow-IsOfOneSource ss more (Step-Grows rtos ss step) in
      record {
        pipeline_ok = Step-PipelineInv rtos step v.pipeline_ok;
        origin_ok = Step-OriginInv rtos ss step v.pipeline_ok v.origin_ok;
        snapshot_ok = λ has. grow _ (v.snapshot_ok has);
        sent_ok = All-map _ (IsOfOneSource more) _ grow v.sent_ok;
      }
  SystemStep-SystemOk {s} ss dispatcher_runs v = dispatched-SystemOk ss s v
  SystemStep-SystemOk {s} ss client_opens v = record {
    pipeline_ok = v.pipeline_ok;
    origin_ok = v.origin_ok;
    snapshot_ok = v.snapshot_ok;
    sent_ok = tt;
  }
  SystemStep-SystemOk {s} ss (worker_runs err peek) v = record {
    pipeline_ok = v.pipeline_ok;
    origin_ok = v.origin_ok;
    snapshot_ok =
        subst
          (λ (n : Snapshot).
            n.has_latest_publication ≡ true → IsOfOneSource ss n.latest_publication)
          (sym (round_keeps_snapshot s.view.client.result err peek s.view)) v.snapshot_ok;
    sent_ok = round_keeps_sent ss s.view.client.result err peek s.view v.snapshot_ok v.sent_ok;
  }

  pub data Runs (start : System) : System → Type 0 where
    not_yet : Runs start start
    goes_on : {s t : System} → SystemStep s t → Runs start s → Runs start t

  abbrev pub run_sessions : {start s : System} → Runs start s → Sessions
  run_sessions not_yet = [] ∷ []
  run_sessions (goes_on step run) = round_sessions step (run_sessions run)

  pub record IsBooted (s : System) : Type 0 where
    pub pipeline_initial : IsInitial rtos s.pipeline
    pub no_snapshot : s.view.snapshot.has_latest_publication ≡ false
    pub nothing_sent : s.view.client.sent ≡ []

  Runs-SystemOk :
      {start s : System} → IsBooted start → (run : Runs start s) → SystemOk (run_sessions run) s
  Runs-SystemOk {start} b not_yet = record {
    pipeline_ok = initial-PipelineInv rtos start.pipeline b.pipeline_initial;
    origin_ok = initial-OriginInv rtos start.pipeline b.pipeline_initial;
    snapshot_ok = λ has. absurd cc;
    sent_ok = subst (All (IsOfOneSource ([] ∷ []))) (sym b.nothing_sent) tt;
  }
  Runs-SystemOk b (goes_on step run) =
      SystemStep-SystemOk (run_sessions run) step (Runs-SystemOk b run)

  -- From the two input sources to the socket: whatever bytes UART2 and the mock writer deliver, and
  -- however the tasks, the timer, the dispatcher and the worker interleave, each publication whose
  -- chunk the socket of a client has taken holds, byte for byte, a GGA line with a valid checksum
  -- and an accepted HDOP and behind it an RMC line with a valid checksum, and both lines stand in
  -- this order in what one session of one source has sent, the UART's between two uploads or one
  -- upload's: no client gets a pair that mixes the receiver and an upload, or two uploads.
  pub sent_from_one_source :
      {start s : System}
      → IsBooted start
      → (run : Runs start s) → All (IsOfOneSource (run_sessions run)) s.view.client.sent
  sent_from_one_source b run = (Runs-SystemOk b run).sent_ok
