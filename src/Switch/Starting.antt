-- ===== src/Switch/Starting.antt =====
-- `start` of src/index.js: what the switch has done once the transports have answered.
use js_libp2p_swarm.Prelude.{
  ℕ, ◌≡◌, refl, sym, ap, ◌∙◌, true, if◌then◌else◌, Option, none, some, List, [], ◌∷◌, ◌++◌, map,
  length, has, arith,
}
use mathlib.Core.List.{append-nil, append_assoc}
use js_libp2p_swarm.Errors.{SwitchError}
use js_libp2p_swarm.Dialer.Manager
use js_libp2p_swarm.Switch.Jobs.{set_job-last, on_answer-last, run-answered}
use js_libp2p_swarm.Switch.Lifecycle.{
  stopped, starting, Trigger, start, stop, done, Fsm, Switch, Readings, Job, series, finished,
  Effect, stats_start, listen, emit_error, request, write, add_job, series_next, answer_job,
  put_answered, series_failed, on_answer, enter, answer, perform, Input, performs, starts, answered,
  step, run, on_starting, transition,
}

on_answer-series :
    (r : Readings) (rest : List ℕ) (s : Switch)
    → on_answer r (length s.jobs) none (add_job (series rest, s))
      ≡ some (add_job (series_next rest s))
unfolding series_next answer_job
on_answer-series r [] s =
    on_answer-last r none s (series [])
    ∙ (λ i. some (record (request done s) { jobs = set_job-last s.jobs (series []) finished i }))
on_answer-series r (key ∷ rest) s = on_answer-last r none s (series (key ∷ rest)) ∙ (λ i.
    some (record (write (listen key ∷ []) s) {
      jobs = set_job-last s.jobs (series (key ∷ rest)) (series rest) i;
    }))

on_answer-series_failed :
    (r : Readings) (e : SwitchError) (rest : List ℕ) (s : Switch)
    → r.has_error_listener ≡ true
    → on_answer r (length s.jobs) (some e) (add_job (series rest, s))
      ≡ some (add_job (finished, request stop (write (emit_error e ∷ []) s)))
unfolding answer_job
on_answer-series_failed r e rest s t =
    on_answer-last r (some e) s (series rest)
    ∙ ap
        (λ b. put_answered (length s.jobs) (
          series_failed
            (if b then some (write (emit_error e ∷ []) (add_job (series rest, s))) else none)))
        t
    ∙ (λ i. some (record (request stop (write (emit_error e ∷ []) s)) {
      jobs = set_job-last s.jobs (series rest) finished i;
    }))

-- The switch when its transports have answered.
abbrev pub asked : ℕ → Trigger → List Effect → Switch → Switch
asked cb t es s = record s {
  state = starting;
  on_start = s.on_start ++ cb ∷ [];
  jobs = s.jobs ++ finished ∷ [];
  requests = t ∷ [];
  log = (s.log ++ stats_start ∷ []) ++ es;
}

module _ (fsm : Fsm) (r : Readings) (answers : ℕ → Option SwitchError) where
  -- The answers of the transports, up to the first that is an error.
  abbrev pub inputs_after :
      ℕ → Option SwitchError → List (Readings × Input) → List (Readings × Input)
  inputs_after job none rest = (r, answered job none) ∷ rest
  inputs_after job (some e) rest = (r, answered job (some e)) ∷ []

  abbrev pub inputs_of : ℕ → List ℕ → List (Readings × Input)
  inputs_of job [] = []
  inputs_of job (key ∷ rest) = inputs_after job (answers key) (inputs_of job rest)

  -- What has been done when they all have been read.
  abbrev pub ended_after : Option SwitchError → Trigger × List Effect → Trigger × List Effect
  ended_after none (t, es) = (t, es)
  ended_after (some e) (t, es) = (stop, emit_error e ∷ [])

  abbrev pub ended : List ℕ → Trigger × List Effect
  ended [] = (done, [])
  ended (key ∷ rest) = let (t, es) = ended_after (answers key) (ended rest) in (t, listen key ∷ es)

  abbrev after : Trigger × List Effect → Switch → Job × Switch
  after (t, es) s = (finished, record s { requests = s.requests ++ t ∷ []; log = s.log ++ es })

  -- Where one of the keys is answered with an error, the switch has a listener of `error`.
  abbrev IsHeard : List ℕ → Type 0
  IsHeard keys =
      (key : ℕ) (e : SwitchError)
      → has key keys ≡ true
      → answers key ≡ some e
      → r.has_error_listener ≡ true

  -- The `eachSeries` over the keys runs to its end.
  run-series :
      (keys : List ℕ) (s : Switch)
      → IsHeard keys
      → run fsm (inputs_of (length s.jobs) keys) (add_job (series_next keys s))
        ≡ some (add_job (after (ended keys) s))
  unfolding run series_next
  run-series [] s h =
      λ i. some (add_job (finished, record (request done s) { log = sym (append-nil s.log) i }))
  run-series (key ∷ rest) s h =
      next (answers key) (λ e g. h key e (ground arith) g)
        (λ s'. run-series rest s' (λ k e m. h k e (ground arith)))
    where
      next :
          (o : Option SwitchError)
          → ((e : SwitchError) → o ≡ some e → r.has_error_listener ≡ true)
          → ((s' : Switch)
              → run fsm (inputs_of (length s'.jobs) rest) (add_job (series_next rest s'))
                ≡ some (add_job (after (ended rest) s')))
          → run fsm
              (inputs_after (length s.jobs) o (inputs_of (length s.jobs) rest))
              (add_job (series rest, write (listen key ∷ []) s))
            ≡ some (
                add_job (
                  after
                    ((ended_after o (ended rest)).0, listen key ∷ (ended_after o (ended rest)).1)
                    s))
      next none g ih =
          run-answered fsm r (length s.jobs) none (inputs_of (length s.jobs) rest) _ _
            (on_answer-series r rest (write (listen key ∷ []) s))
          ∙ ih (write (listen key ∷ []) s)
          ∙ (λ i. some (
              add_job (
                finished,
                record s {
                  requests = s.requests ++ (ended rest).0 ∷ [];
                  log = append_assoc s.log (listen key ∷ []) (ended rest).1 i;
                },
              )))
      next (some e) g ih =
          run-answered fsm r (length s.jobs) (some e) [] _ _
            (on_answer-series_failed r e rest (write (listen key ∷ []) s) (g e refl))
          ∙ (λ i. some (
              add_job (
                finished,
                record (request stop s) {
                  log = append_assoc s.log (listen key ∷ []) (emit_error e ∷ []) i;
                },
              )))

  ended-ok :
      (pre rest : List ℕ)
      → ((key : ℕ) → has key pre ≡ true → answers key ≡ none)
      → ended (pre ++ rest) ≡ ((ended rest).0, map listen pre ++ (ended rest).1)
  ended-ok [] rest h = refl
  ended-ok (key ∷ pre) rest h =
      ap
        (λ o. (
          (ended_after o (ended (pre ++ rest))).0,
          listen key ∷ (ended_after o (ended (pre ++ rest))).1,
        ))
        (h key (ground (arith)))
      ∙ ap (λ p. (p.0, listen key ∷ p.1)) (ended-ok pre rest (λ k g. h k (ground arith)))

  -- The inputs of a start, but for the last answer of fsm-event.
  abbrev pub start_inputs : ℕ → Switch → List (Readings × Input)
  start_inputs cb s = (r, starts cb) ∷ (r, performs) ∷ inputs_of (length s.jobs) r.available

  run-start :
      (cb : ℕ) (s : Switch)
      → IsHeard r.available
      → run fsm (start_inputs cb s) (record s { state = stopped; requests = [] })
        ≡ some (asked cb (ended r.available).0 (ended r.available).1 s)
  unfolding run step perform answer enter on_starting transition
  run-start cb s h =
      rw (fsm.follows stopped start, run)
        (run-series r.available
          (record s {
            state = starting;
            on_start = s.on_start ++ cb ∷ [];
            requests = [];
            log = s.log ++ stats_start ∷ [];
          })
          h)

  -- Where the switch has a listener of `error`, the first transport that fails to listen ends a
  -- start of a stopped switch, with no request pending and nothing else called meanwhile: its error is
  -- emitted, the transports behind it are not asked, and the switch is told to stop.
  pub run-start_failed :
      (cb : ℕ) (s : Switch) (pre post : List ℕ) (key : ℕ) (e : SwitchError)
      → r.has_error_listener ≡ true
      → r.available ≡ pre ++ key ∷ post
      → ((k : ℕ) → has k pre ≡ true → answers k ≡ none)
      → answers key ≡ some e
      → run fsm (start_inputs cb s) (record s { state = stopped; requests = [] })
        ≡ some (asked cb stop (map listen pre ++ listen key ∷ emit_error e ∷ []) s)
  run-start_failed cb s pre post key e t av h g =
      run-start cb s (λ k e' m a. t)
      ∙ ap (λ p. some (asked cb p.0 p.1 s))
          (ap ended av
            ∙ ended-ok pre (key ∷ post) h
            ∙ ap
                (λ o. (
                  (ended_after o (ended post)).0,
                  map listen pre ++ listen key ∷ (ended_after o (ended post)).1,
                ))
                g)
