-- ===== src/Switch/Jobs.antt =====
-- The jobs of the switch of src/index.js: the one that was added last is answered.
use js_libp2p_swarm.Prelude.{
  ◌≡◌, refl, ◌∙◌, Option-cases, inl, inr, ap, Option, none, some, List, [], ◌∷◌, ◌++◌, get_elem?, ℕ,
  length, arith,
}
use js_libp2p_swarm.Errors.{SwitchError}
use js_libp2p_swarm.Switch.Lifecycle.{
  Fsm, Switch, Readings, Job, add_job, put_answered, set_job, answer_job, on_answer, Input,
  answered, step, run,
}

get_elem?-last : (js : List Job) (j : Job) → get_elem? (js ++ j ∷ []) (length js) ≡ some j
get_elem?-last [] j = refl
get_elem?-last (i ∷ js) j = ground (arith, get_elem?-last js j)

pub set_job-last : (js : List Job) (j k : Job) → set_job (length js) k (js ++ j ∷ []) ≡ js ++ k ∷ []
set_job-last [] j k = refl
set_job-last (i ∷ js) j k = ap (λ is. i ∷ is) (set_job-last js j k)

-- The job that was added last is answered.
pub on_answer-last :
    (r : Readings) (e : Option SwitchError) (s : Switch) (j : Job)
    → on_answer r (length s.jobs) e (add_job (j, s))
      ≡ put_answered (length s.jobs) (answer_job r j e (add_job (j, s)))
unfolding on_answer
on_answer-last r e s j = rw (get_elem?-last s.jobs j, on_answer) refl

abbrev and_then : Option Switch → (Switch → Option Switch) → Option Switch
and_then none f = none
and_then (some s) f = f s

-- A history that begins with the answer to a job.
pub run-answered :
    (fsm : Fsm) (r : Readings) (k : ℕ) (e : Option SwitchError) (h : List (Readings × Input))
    (s s' : Switch)
    → on_answer r k e s ≡ some s'
    → run fsm ((r, answered k e) ∷ h) s ≡ run fsm h s'
unfolding run step
run-answered fsm r k e h s s' g = rw (g, run) refl

run-append :
    (fsm : Fsm) (h h' : List (Readings × Input)) (s : Switch)
    → run fsm (h ++ h') s ≡ and_then (run fsm h s) (run fsm h')
unfolding run
run-append fsm [] h' s = refl
run-append fsm ((r, i) ∷ h) h' s = elim (Option-cases (step fsm r i s)) [
  | inl g ↦ rw (g, run) refl
  | inr (x, g) ↦ rw (g, run) (run-append fsm h h' x)
]

-- A history that returns is followed by another.
pub run-through :
    (fsm : Fsm) (h h' : List (Readings × Input)) (s s' : Switch)
    → run fsm h s ≡ some s'
    → run fsm (h ++ h') s ≡ run fsm h' s'
run-through fsm h h' s s' e = run-append fsm h h' s ∙ ap (λ o. and_then o (run fsm h')) e
