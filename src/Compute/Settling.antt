-- ===== src/Compute/Settling.antt =====
-- That a waiting call is settled once: ComputeService, in
-- packages/backend/common/src/infrastructure/compute/compute.service.ts.
use package.text.Mathlib.Text.{◌==◌ as str_eq}
use package.text.Mathlib.TextEquality.{eq_iff}
use express_nest_blueprint.Base.{
  ℕ, String, Bool, true, false, ◌&&◌, Option, none, some, List, [], ◌∷◌, ◌++◌, ◌≡◌, ◌∙◌, refl, any,
  arith, if◌then◌else◌,
}
use express_nest_blueprint.Base.Map
use express_nest_blueprint.Base.Map.{Map, get-set, get-delete}
use express_nest_blueprint.Compute.{
  Outcome, resolved, rejected, JobEvent, waits, completed, failed, timed_out, PendingJobs, on_event,
  settled,
}

module _ {V : Type 0} where
  abbrev pub job_of : JobEvent V → String
  job_of (waits job call) = job
  job_of (completed job v) = job
  job_of (failed job reason) = job
  job_of (timed_out job) = job

  abbrev pub is_waits : JobEvent V → Bool
  is_waits (waits job call) = true
  is_waits _ = false

  -- How an event settles the call that waits for its job.
  abbrev pub outcome_of : JobEvent V → Option (Outcome V)
  outcome_of (waits job call) = none
  outcome_of (completed job v) = some (resolved v)
  outcome_of (failed job reason) = some (rejected reason)
  outcome_of (timed_out job) = some (rejected "timed out")

  -- Whether an event is about a job, and whether it begins a wait for it.
  abbrev pub is_about : String → JobEvent V → Bool
  is_about job e = str_eq (job_of e) job

  abbrev pub begins : String → JobEvent V → Bool
  begins job e = is_waits e && str_eq (job_of e) job

  with_job :
      JobEvent V → String → Option (ℕ × Outcome V) → List (ℕ × Outcome V) → List (ℕ × Outcome V)
  with_job e job none rest = rest
  with_job e job (some o) rest = if is_about job e then o ∷ rest else rest

  -- What the events settle for one job, in order.
  pub settlements : String → List (JobEvent V) → PendingJobs → List (ℕ × Outcome V)
  unfolding with_job on_event
  settlements job [] pending = []
  settlements job (e ∷ events) pending =
      with_job e job (on_event e pending).0 (settlements job events (on_event e pending).1)

  other-keeps :
      (job : String) (e : JobEvent V) (pending : PendingJobs)
      → is_about job e ≡ false
      → Map.get (on_event e pending).1 job ≡ Map.get pending job
  unfolding on_event
  other-keeps job (waits k call) pending h = ground (arith, h, get-set pending k job call)
  other-keeps job (completed k v) pending h = ground (arith, h, get-delete pending k job)
  other-keeps job (failed k reason) pending h = ground (arith, h, get-delete pending k job)
  other-keeps job (timed_out k) pending h = ground (arith, h, get-delete pending k job)

  other-with_job :
      (job : String) (e : JobEvent V) (x : Option (ℕ × Outcome V)) (rest : List (ℕ × Outcome V))
      → is_about job e ≡ false
      → with_job e job x rest ≡ rest
  unfolding with_job
  other-with_job job e none rest h = refl
  other-with_job job e (some o) rest h = rw h refl

  -- An event that is not the begin of a wait leaves its own job without a waiting call.
  own-removes :
      (job : String) (e : JobEvent V) (pending : PendingJobs)
      → begins job e ≡ false
      → is_about job e ≡ true
      → Map.get (on_event e pending).1 job ≡ none
  unfolding on_event
  own-removes job (waits k call) pending b h = ground (arith, b, h)
  own-removes job (completed k v) pending b h = ground (arith, h, get-delete pending k job)
  own-removes job (failed k reason) pending b h = ground (arith, h, get-delete pending k job)
  own-removes job (timed_out k) pending b h = ground (arith, h, get-delete pending k job)

  own-silent :
      (job : String) (e : JobEvent V) (pending : PendingJobs)
      → begins job e ≡ false
      → is_about job e ≡ true
      → Map.get pending job ≡ none
      → (on_event e pending).0 ≡ none
  unfolding on_event settled
  own-silent job (waits k call) pending b h n = refl
  own-silent job (completed k v) pending b h n = ground (arith, h, n, eq_iff k job)
  own-silent job (failed k reason) pending b h n = ground (arith, h, n, eq_iff k job)
  own-silent job (timed_out k) pending b h n = ground (arith, h, n, eq_iff k job)

  silent-step :
      (job : String) (e : JobEvent V) (pending : PendingJobs) (about : Bool)
      → is_about job e ≡ about
      → begins job e ≡ false
      → Map.get pending job ≡ none
      → (rest : List (ℕ × Outcome V))
      → (with_job e job (on_event e pending).0 rest ≡ rest)
        × (Map.get (on_event e pending).1 job ≡ none)
  unfolding with_job
  silent-step job e pending true h b n rest =
      (rw (own-silent job e pending b h n) refl, own-removes job e pending b h)
  silent-step job e pending false h b n rest =
      (other-with_job job e (on_event e pending).0 rest h, other-keeps job e pending h ∙ n)

  settlements-none :
      (job : String) (events : List (JobEvent V)) (pending : PendingJobs)
      → any (begins job) events ≡ false
      → Map.get pending job ≡ none
      → settlements job events pending ≡ []
  unfolding settlements
  settlements-none job [] pending b n = refl
  settlements-none job (e ∷ events) pending b n =
      let b₀ : begins job e ≡ false = ground (arith, b) in
      let b₁ : any (begins job) events ≡ false = ground (arith, b) in
      let (same, gone) =
        silent-step job e pending (is_about job e) refl b₀ n
          (settlements job events (on_event e pending).1) in
      same ∙ settlements-none job events (on_event e pending).1 b₁ gone

  own-settles :
      (job : String) (e : JobEvent V) (pending : PendingJobs) (call : ℕ) (o : Outcome V)
      → outcome_of e ≡ some o
      → is_about job e ≡ true
      → Map.get pending job ≡ some call
      → (on_event e pending).0 ≡ some (call, o)
  unfolding on_event settled
  own-settles job (waits k c) pending call o out h n = ground (arith, out)
  own-settles job (completed k v) pending call o out h n = ground (arith, out, h, n, eq_iff k job)
  own-settles job (failed k reason) pending call o out h n = ground (arith, out, h, n, eq_iff k job)
  own-settles job (timed_out k) pending call o out h n = ground (arith, out, h, n, eq_iff k job)

  not-begins :
      (job : String) (e : JobEvent V) (o : Outcome V) → outcome_of e ≡ some o → begins job e ≡ false
  not-begins job (waits k c) o out = ground (arith, out)
  not-begins job (completed k v) o out = refl
  not-begins job (failed k reason) o out = refl
  not-begins job (timed_out k) o out = refl

  settlements-first :
      (job : String) (before after : List (JobEvent V)) (e : JobEvent V) (o : Outcome V)
      (pending : PendingJobs) (call : ℕ)
      → any (is_about job) before ≡ false
      → outcome_of e ≡ some o
      → is_about job e ≡ true
      → any (begins job) after ≡ false
      → Map.get pending job ≡ some call
      → settlements job (before ++ (e ∷ after)) pending ≡ (call, o) ∷ []
  unfolding settlements with_job
  settlements-first job [] after e o pending call quiet out own last n =
      rw
        (
          own-settles job e pending call o out own n,
          own,
          settlements-none job after (on_event e pending).1 last
              (own-removes job e pending (not-begins job e o out) own),
        )
        refl
  settlements-first job (d ∷ before) after e o pending call quiet out own last n =
      let q₀ : is_about job d ≡ false = ground (arith, quiet) in
      let q₁ : any (is_about job) before ≡ false = ground (arith, quiet) in
      other-with_job job d (on_event d pending).0
        (settlements job (before ++ (e ∷ after)) (on_event d pending).1) q₀
      ∙ settlements-first job before after e o (on_event d pending).1 call q₁ out own last
          (other-keeps job d pending q₀ ∙ n)

-- A call that waits for a job is settled exactly once, by the first event about its job, whatever comes of
-- other jobs before and of any job afterwards, where no other call waits for the job.
pub settlements-once :
    {V : Type 0} (job : String) (call : ℕ) (before after : List (JobEvent V)) (e : JobEvent V)
    (o : Outcome V) (pending : PendingJobs)
    → any (is_about job) before ≡ false
    → outcome_of e ≡ some o
    → is_about job e ≡ true
    → any (begins job) after ≡ false
    → settlements job (waits job call ∷ (before ++ (e ∷ after))) pending ≡ (call, o) ∷ []
unfolding settlements with_job on_event
settlements-once job call before after e o pending quiet out own last =
    settlements-first job before after e o (Map.set pending job call) call quiet out own last
      (ground (arith, eq_iff job job, get-set pending job job call))
