-- ===== src/Queue/Streams/Requeues.antt =====
-- internal/queue/queue.go: what `Requeue` does to the jobs, and to those that a monitor claimed.
use contest_management_syste.Prelude.{
  ℕ, suc, ◌≡◌, ◌⊎◌, inl, inr, refl, sym, ap, ◌∙◌, Bool, true, false, ◌&&◌, ltb, Option, none, some,
  [], String, if◌then◌else◌, if_yes, if_no, Bool-cases,
}
use mathlib.Core.Path.{subst}
use contest_management_syste.Queue.Streams.Commands.{
  Slot, unused, acked, gone, is_there, Redis, IsRedis, is_at, is_pending, waiting, pending,
}
use contest_management_syste.Queue.Streams.{
  Priority, Job, Value, job, decode_job, job_stream, remove, Requeued, nothing_to_do, dropped,
  requeued, exhausted, requeue_job, requeue_claimed, requeue,
}
use contest_management_syste.Queue.Streams.Slots.{
  claim-Leaves, job_of, name_of, is_used, name_at, Evolves, Stays,
}
use contest_management_syste.Queue.Streams.Moves.{
  Matches, Evolves-trans, remove-Evolves, remove-Spares, claim-Evolves, claim-Stays,
}
use contest_management_syste.Queue.Streams.Results.{
  Untouched, Untouched-trans, remove-Untouched, claim-Untouched,
}
use contest_management_syste.Queue.Streams.Steps.{give_up, IsGivenUp}
use contest_management_syste.Queue.Streams.Kept.{
  IsQueued, moved, spared, stayed, cleared-Evolves, cleared-Untouched, cleared-Spares,
}

module _ {R : Type 0} (r : Redis R Value) (ns : String) (laws : IsRedis r) where
  -- What `Requeue` does to the jobs: they stay queued or are given up.
  pub record IsMove (n : ℕ) (x : R) (q : R × Requeued) : Type 0 where
    pub evolves : Evolves r x q.0
    pub untouched : Untouched r ns x q.0
    pub queued :
        (i : String) → IsQueued r ns x i → IsQueued r ns q.0 i ⊎ IsGivenUp i (give_up n q.1 [])

  if-IsMove :
      (n : ℕ) (b : Bool) (x : R) (q s : R × Requeued)
      → IsMove n x q
      → (b ≡ false → IsMove n x s)
      → IsMove n x (if b then q else s)
  if-IsMove n true x q s a h = a
  if-IsMove n false x q s a h = h refl

  pub requeue_job-IsMove :
      (x : R) (p : Priority) (k n : ℕ) (o : Option Job)
      → Matches r ns x (record { priority = p; id = k; job = o })
      → IsMove n x (requeue_job r ns x p k n o)
  requeue_job-IsMove x p k n none m = record {
    evolves = remove-Evolves r ns laws x p k;
    untouched = remove-Untouched r ns laws x p k;
    queued = λ i q.
        elim (spared r ns laws x (remove r ns x p k) (job_stream ns p) k i
            (remove-Spares r ns laws x p k) q)
          as (λ _. IsQueued r ns (remove r ns x p k) i ⊎ IsGivenUp i (give_up n dropped [])) [
            | inl h ↦ inl h
            | inr h ↦ absurd (let a = m.1 i h in cc)
          ];
  }
  requeue_job-IsMove x p k n (some j) m =
      let again : Job = record j { attempt = suc j.attempt } in
      let s = job_stream ns p in
      let y = remove r ns (r.xadd x s (job again)).0 p k in
      if-IsMove n (ltb (suc j.attempt) n) x (y, requeued again) (remove r ns x p k, exhausted again)
        (record {
          evolves = cleared-Evolves r ns laws x s (job again) p k;
          untouched = cleared-Untouched r ns laws x s (job again) p k;
          queued = λ i q.
              elim (spared r ns laws x y s k i (cleared-Spares r ns laws x s (job again) p k) q)
                as (λ _. IsQueued r ns y i ⊎ IsGivenUp i (give_up n (requeued again) [])) [
                  | inl h ↦ inl h
                  | inr h ↦
                      let same_id : j.id ≡ i = (let a = m.1 i h in cc) in
                      inl (subst (IsQueued r ns y) same_id (moved r ns laws x p again p k m.0))
                ];
        })
        (λ spent. record {
          evolves = remove-Evolves r ns laws x p k;
          untouched = remove-Untouched r ns laws x p k;
          queued = λ i q.
              elim (spared r ns laws x (remove r ns x p k) s k i (remove-Spares r ns laws x p k) q)
                as (λ _.
                  IsQueued r ns (remove r ns x p k) i
                  ⊎ IsGivenUp i (give_up n (exhausted again) [])) [
                    | inl h ↦ inl h
                    | inr h ↦ inr (inl ((let a = m.1 i h in cc), spent))
                  ];
        })

  pub pending_used :
      (s : Slot Value) (v : Value)
      → is_pending s ≡ some v
      → (is_used s ≡ true) × (job_of s ≡ decode_job v)
  pending_used unused v h = cc
  pending_used (waiting w) v h = cc
  pending_used (pending c w) v h = let e : w ≡ v = cc in (refl, ap decode_job e)
  pending_used (acked w) v h = cc
  pending_used gone v h = cc

  pub claimed_job :
      (x : R) (s c : String) (k : ℕ)
      → job_of (r.look (r.xclaim x s c k).0 s k) ≡ job_of (r.look x s k)
  claimed_job x s c k =
      let b = is_there (r.xclaim x s c k).1 && is_at s k s k in
      let law = ap job_of (laws.look-xclaim x s c k s k) in
      elim (Bool-cases b) [
        | inl e ↦ law ∙ ap job_of (if_yes b _ _ e) ∙ claim-Leaves c (r.look x s k)
        | inr e ↦ law ∙ ap job_of (if_no b _ _ e)
      ]

  after-IsMove :
      (n : ℕ) (x y : R) (q : R × Requeued)
      → Evolves r x y
      → Untouched r ns x y
      → Stays r x y
      → IsMove n y q
      → IsMove n x q
  after-IsMove n x y q e u s m = record {
    evolves = Evolves-trans r ns x y q.0 e m.evolves;
    untouched = Untouched-trans r ns x y q.0 u m.untouched;
    queued = λ i k. m.queued i (stayed r ns laws x y i s k);
  }

  nothing-IsMove : (n : ℕ) (x : R) → IsMove n x (x, nothing_to_do)
  nothing-IsMove n x = record {
    evolves = λ s k u. (u, λ i h. h);
    untouched = λ k u. refl;
    queued = λ i k. inl k;
  }

  pub claimed_Matches :
      (x : R) (p : Priority) (k : ℕ) (v : Value)
      → (r.xclaim x (job_stream ns p) "monitor" k).1 ≡ some v
      → Matches r ns
          (r.xclaim x (job_stream ns p) "monitor" k).0
          (record { priority = p; id = k; job = decode_job v })
  claimed_Matches x p k v e =
      let s = job_stream ns p in
      let y = (r.xclaim x s "monitor" k).0 in
      let had = pending_used (r.look x s k) v (laws.xclaim_pending x s "monitor" k v e) in
      let name : name_at r y s k ≡ name_of (decode_job v) =
        ap name_of (claimed_job x s "monitor" k ∙ had.1) in
      ((claim-Evolves r ns laws x s "monitor" k s k had.0).0, λ i h. sym name ∙ h)

  requeue_claimed-IsMove :
      (x : R) (p : Priority) (k n : ℕ) (o : Option Value)
      → (r.xclaim x (job_stream ns p) "monitor" k).1 ≡ o
      → IsMove n
          (r.xclaim x (job_stream ns p) "monitor" k).0
          (requeue_claimed r ns (r.xclaim x (job_stream ns p) "monitor" k).0 p k n o)
  requeue_claimed-IsMove x p k n none e =
      nothing-IsMove n (r.xclaim x (job_stream ns p) "monitor" k).0
  requeue_claimed-IsMove x p k n (some v) e =
      requeue_job-IsMove (r.xclaim x (job_stream ns p) "monitor" k).0 p k n (decode_job v)
        (claimed_Matches x p k v e)

  pub requeue-IsMove : (x : R) (p : Priority) (k n : ℕ) → IsMove n x (requeue r ns x p k n)
  unfolding requeue
  requeue-IsMove x p k n =
      let s = job_stream ns p in
      after-IsMove n x (r.xclaim x s "monitor" k).0 _ (claim-Evolves r ns laws x s "monitor" k)
        (claim-Untouched r ns laws x p "monitor" k) (claim-Stays r ns laws x s "monitor" k)
        (requeue_claimed-IsMove x p k n (r.xclaim x s "monitor" k).1 refl)
