-- ===== src/Controller/Queue/Closing/Ending.antt =====
-- Run of pkg/common/controller/controller.go after stopCh is closed, up to its return.
use kubernetes_local_volume.Base.{
  ℕ, zero, suc, ◌+◌, ◌≤◌, ◌<◌, ◌==◌, ◌≡◌, ◌≢◌, refl, ap, subst, sym, String, Bool, true, false,
  Option, none, some, List, [], ◌∷◌, ◌++◌, arith, if◌then◌else◌, Bool-cases, ◌⊎◌, ◌∙◌, inl, inr,
}
use kubernetes_local_volume.Types.Objects.{NamespacedName}
use kubernetes_local_volume.Controller.{Item, key_item, shutdown, panics, process_next_work_item}
use kubernetes_local_volume.Controller.Queue.{WorkQueue, Reconciler, process}
use kubernetes_local_volume.Controller.Queue.Draining.{process-running, process-ignores}
use kubernetes_local_volume.Controller.Queue.Closing.{
  Stage, emptying, joining, ended, Closing, Actor, run_itself, a_worker, look, round, work, act,
  act_all, stop, worker_turns, Closes, Timely, Waited,
}

is_zero : (n : ℕ) → (n == 0) ≡ true → n ≡ 0
is_zero n e = ground arith

module _ {Q : Type 0} {K : WorkQueue Q} {len : Q → ℕ} (E : Closes K len) (reconcile : Reconciler)
    (calm : (log : List String) (key : String) → reconcile log key ≢ panics) where
  -- What holds while Run ends.
  abbrev Sound : Closing Q → Type 0
  Sound c =
      (K.shutting_down c.queue ≡ true)
      × (c.workers ≡ 0 → len c.queue ≡ 0)
      × (c.stage ≡ ended → c.workers ≡ 0)

  abbrev measure : Closing Q → ℕ
  measure c = E.drains.load c.queue + c.workers

  -- A worker's turn, of `others` beside it.
  abbrev Drops : Closing Q → ℕ → Closing Q → Type 0
  Drops c others d =
      (K.shutting_down d.queue ≡ true)
      × (d.workers ≡ 0 → len d.queue ≡ 0)
      × (d.stage ≡ c.stage)
      × (measure d < E.drains.load c.queue + suc others)

  round_closed :
      (c : Closing Q) (others : ℕ) (rest : Q)
      → K.get c.queue ≡ some (shutdown, rest)
      → Drops c others (round K len reconcile c.stage others c.log (shutdown, rest))
  unfolding process process_next_work_item
  round_closed c others rest e =
      let (empty, shut, less) = E.last_get c.queue rest e in
      (shut, λ none_left. empty, refl, omega arith)

  round_on :
      (c : Closing Q) (others : ℕ) (key : NamespacedName) (rest : Q)
      → K.shutting_down rest ≡ true
      → E.drains.load rest < E.drains.load c.queue
      → Drops c others (round K len reconcile c.stage others c.log (key_item key, rest))
  round_on c others key rest shut less =
      let (shut2, less2) = process-ignores E.drains reconcile (key_item key) c.log rest shut in
      rw (process-running K reconcile calm key c.log rest)
        (shut2, (λ none_left. absurd (omega arith)), refl, omega arith)

  work-Drops :
      (c : Closing Q) (others : ℕ)
      → K.shutting_down c.queue ≡ true
      → Drops c others (work K len reconcile c (suc others) (K.get c.queue))
  work-Drops c others shut = elim (E.drains.get_last c.queue shut) [
    | inl (rest, e) ↦
        subst (λ next. Drops c others (work K len reconcile c (suc others) next)) (sym e)
          (round_closed c others rest e)
    | inr (key, rest, e, shut2, less) ↦
        subst (λ next. Drops c others (work K len reconcile c (suc others) next)) (sym e)
          (round_on c others key rest shut2 less)
  ]

  look-ended :
      (stage : Stage) (n workers : ℕ)
      → (stage ≡ ended → workers ≡ 0)
      → look stage n workers ≡ ended
      → workers ≡ 0
  look-ended emptying n workers before e = absurd (still (n == 0) e)
    where
      still : (b : Bool) → (if b then joining else emptying) ≢ ended
      still true e = cc
      still false e = cc
  look-ended joining n workers before e = ground arith
  look-ended ended n workers before e = before refl

  -- A turn of a worker lowers the measure, unless all have returned, and one of Run leaves it.
  work-Sound :
      (c : Closing Q)
      → Sound c
      → Sound (act K len reconcile a_worker c)
        × ((c.workers ≡ 0) ⊎ (measure (act K len reconcile a_worker c) < measure c))
  unfolding act
  work-Sound c sound = go c.workers refl
    where
      go :
          (n : ℕ)
          → c.workers ≡ n
          → Sound (work K len reconcile c n (K.get c.queue))
            × ((c.workers ≡ 0) ⊎ (measure (work K len reconcile c n (K.get c.queue)) < measure c))
      go zero e = (sound, inl e)
      go (suc others) e =
          let (shut, empty, at_stage, less) = work-Drops c others sound.0 in
          (
            (shut, empty, λ end. let gone = sound.2 (sym at_stage ∙ end) in absurd (omega arith)),
            inr (omega arith),
          )

  look-Sound : (c : Closing Q) → Sound c → Sound (act K len reconcile run_itself c)
  unfolding act
  look-Sound c (shut, empty, end) = (shut, empty, look-ended c.stage (len c.queue) c.workers end)

  -- Where all workers have returned, nobody starts one.
  act_all-gone :
      (s : List Actor) (c : Closing Q) → c.workers ≡ 0 → (act_all K len reconcile s c).workers ≡ 0
  unfolding act_all act
  act_all-gone [] c gone = gone
  act_all-gone (run_itself ∷ s) c gone = act_all-gone s (act K len reconcile run_itself c) gone
  act_all-gone (a_worker ∷ s) c gone =
      act_all-gone s (act K len reconcile a_worker c) (go c.workers gone)
    where
      go : (n : ℕ) → n ≡ 0 → (work K len reconcile c n (K.get c.queue)).workers ≡ 0
      go zero e = gone
      go (suc n) e = absurd (omega arith)

  act_all-Sound :
      (s : List Actor) (c : Closing Q)
      → Sound c
      → Sound (act_all K len reconcile s c)
        × (measure c ≤ worker_turns s → (act_all K len reconcile s c).workers ≡ 0)
  unfolding act_all
  act_all-Sound [] c sound = (sound, λ enough. omega arith)
  act_all-Sound (run_itself ∷ s) c sound =
      let (sound2, gone) =
        act_all-Sound s (act K len reconcile run_itself c) (look-Sound c sound) in
      (sound2, λ enough. gone (unfold act in enough))
  act_all-Sound (a_worker ∷ s) c sound =
      let (sound2, less) = work-Sound c sound in
      let (sound3, gone) = act_all-Sound s (act K len reconcile a_worker c) sound2 in
      (
        sound3,
        λ enough. elim less [
          | inl none_left ↦ act_all-gone (a_worker ∷ s) c none_left
          | inr lower ↦ gone (omega arith)
        ],
      )

  act_all-append :
      (s t : List Actor) (c : Closing Q)
      → act_all K len reconcile (s ++ t) c ≡ act_all K len reconcile t (act_all K len reconcile s c)
  unfolding act_all
  act_all-append [] t c = refl
  act_all-append (a ∷ s) t c = act_all-append s t (act K len reconcile a c)

  two_looks :
      (c : Closing Q)
      → c.workers ≡ 0
      → len c.queue ≡ 0
      → act_all K len reconcile (run_itself ∷ run_itself ∷ []) c ≡ record c { stage = ended }
  unfolding act_all act
  two_looks c gone empty = ap (λ stage. record c { stage = stage }) (go c.stage)
    where
      go :
          (stage : Stage)
          → look (look stage (len c.queue) c.workers) (len c.queue) c.workers ≡ ended
      go emptying = rw (gone, empty) refl
      go joining = rw gone refl
      go ended = refl

  look-Timely :
      (stage : Stage) (n workers : ℕ)
      → (workers ≡ 0 → n ≡ 0)
      → (stage ≡ ended → workers ≡ 0)
      → Timely stage (look stage n workers) n workers
  look-Timely emptying n workers empty end = elim (Bool-cases (n == 0)) [
    | inl e ↦ rw e (ground arith)
    | inr e ↦ rw e tt
  ]
  look-Timely joining n workers empty end = elim (Bool-cases (workers == 0)) [
    | inl e ↦ rw e (let gone = is_zero workers e in (gone, empty gone))
    | inr e ↦ rw e tt
  ]
  look-Timely ended n workers empty end = (end refl, empty (end refl))

  act-Timely :
      (c : Closing Q)
      → Sound c
      → Timely c.stage (act K len reconcile run_itself c).stage (len c.queue) c.workers
  unfolding act
  act-Timely c (shut, empty, end) = look-Timely c.stage (len c.queue) c.workers empty end

  work_stage :
      (c : Closing Q) (n : ℕ) (next : Option (Item × Q))
      → (work K len reconcile c n next).stage ≡ c.stage
  work_stage c zero next = refl
  work_stage c (suc others) none = refl
  work_stage c (suc others) (some next) = refl

  one_turn_earlier :
      (a : Actor) (s : List Actor) (c : Closing Q)
      → Waited K len reconcile s (act K len reconcile a c)
      → Waited K len reconcile (a ∷ s) c
  unfolding act_all
  one_turn_earlier a s c (inl still) = inl still
  one_turn_earlier a s c (inr (t, u, e, empty)) = inr (a ∷ t, u, ap (λ l. a ∷ l) e, empty)

  act_all-Waited :
      (s : List Actor) (c : Closing Q) → c.stage ≡ emptying → Waited K len reconcile s c
  unfolding act_all act
  act_all-Waited [] c e = inl e
  act_all-Waited (a_worker ∷ s) c e = one_turn_earlier a_worker s c (
      act_all-Waited s (act K len reconcile a_worker c)
        (work_stage c c.workers (K.get c.queue) ∙ e))
  act_all-Waited (run_itself ∷ s) c e = elim (Bool-cases (len c.queue == 0)) [
    | inl empty ↦ inr ([], s, refl, is_zero (len c.queue) empty)
    | inr filled ↦
        one_turn_earlier run_itself s c
          (act_all-Waited s (act K len reconcile run_itself c) (rw (e, act) (rw filled refl)))
  ]

  -- After stopCh is closed Run waits long enough, and returns. In whatever order Run and the workers have
  -- had their turns (`before`), Run is still in its loop on the length of the queue or one of its looks
  -- found the queue empty; the next look ends the loop only at an empty queue, and ends Run only when
  -- every worker has returned and nothing is queued. And when the workers have had as many
  -- turns, in any order with Run's own (`s`), as there are keys that the queue may still hand out and
  -- workers, two looks of Run are enough for it to end, with every worker returned and nothing queued.
  -- (There is a worker, the queue is shut down by ShutDown and then ends its workers when it is empty, and
  -- the reconciler does not panic.)
  pub stop-ended :
      (shut_down : Q → Q)
      → ((q : Q) → K.shutting_down (shut_down q) ≡ true)
      → (threadiness : ℕ) (log : List String) (q : Q) (before s : List Actor) → 0 < threadiness
      → E.drains.load (shut_down q) + threadiness ≤ worker_turns s
      → let first = stop K len reconcile shut_down threadiness log q in
        let now = act_all K len reconcile before first in
        let c = act_all K len reconcile (s ++ run_itself ∷ run_itself ∷ []) first in
        Waited K len reconcile before first
        × Timely now.stage (act K len reconcile run_itself now).stage (len now.queue) now.workers
        × ((c.stage ≡ ended) × (c.workers ≡ 0) × (len c.queue ≡ 0))
  stop-ended shut_down shuts threadiness log q before s some_worker enough = (
    act_all-Waited before first refl,
    act-Timely (act_all K len reconcile before first) (act_all-Sound before first first-Sound).0,
    rw
        (
          act_all-append s (run_itself ∷ run_itself ∷ []) first,
          two_looks (act_all K len reconcile s first) none_left (sound.0.1 none_left),
        )
        (refl, none_left, sound.0.1 none_left),
  )
    where
      first : Closing Q
      first = stop K len reconcile shut_down threadiness log q

      first-Sound : Sound first
      first-Sound = (shuts q, (λ e. absurd (omega arith)), λ e. cc)

      sound :
          Sound (act_all K len reconcile s first)
          × (measure first ≤ worker_turns s → (act_all K len reconcile s first).workers ≡ 0)
      sound = act_all-Sound s first first-Sound

      none_left : (act_all K len reconcile s first).workers ≡ 0
      none_left = sound.1 enough
