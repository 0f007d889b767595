-- ===== src/Client/Factory/Sharing.antt =====
-- The uses of a factory of shared informers (pkg/client/informers/externalversions/factory.go): requests
-- for informers, and calls of Start, in any order.
use kubernetes_local_volume.Base.{
  ℕ, ◌≤◌, String, eq_refl, Bool-cases, Option-cases, ◌||◌, ◌≡◌, refl, ap, ◌∙◌, Option, some, List,
  [], ◌∷◌, ◌++◌, In, In-append_cases, inl, inr, arith,
}
use kubernetes_local_volume.Base.Dict.{lookup, has, IsMap, lookup-insert, insert-IsMap, In-lookup}
use kubernetes_local_volume.Client.Factory.{
  SharedInformerFactory, is_started, start, informer_for, new_filtered_shared_informer_factory,
}
use kubernetes_local_volume.Client.Factory.Counting.{
  one, run_count, run_count-append, start_loop-count, start_loop-marks, start_loop-In,
  lookup-insert_known, run_count-In, one-le,
}

-- A request names a type and has the function that makes its informer.
pub data Use (C I : Type 0) : Type 0 where
  requests : String → (C → ℕ → I) → Use C I
  starts : Use C I

-- The factory, and the informers that were run, with their types.
abbrev pub Running : Type 0 → Type 0 → Type 0 → Type 0
Running C I T = SharedInformerFactory C I T × List (String × I)

module _ {C I T : Type 0} where
  abbrev pub use_once : Use C I → Running C I T → Running C I T
  use_once (requests t new_func) (f, log) = ((informer_for t new_func f).0, log)
  use_once starts (f, log) = ((start f).0, log ++ (start f).1)

  unfoldable pub use_all : List (Use C I) → Running C I T → Running C I T
  use_all [] s = s
  use_all (u ∷ us) s = use_all us (use_once u s)

-- What holds of a factory and of what it has run.
record Sound {C I T : Type 0} (s : Running C I T) : Type 0 where
  distinct : IsMap s.0.informers
  counted : (t : String) → run_count t s.1 ≡ one (is_started t s.0.started_informers)
  shared : (t : String) (i : I) → In (t, i) s.1 → lookup t s.0.informers ≡ some i

module _ {C I T : Type 0} where
  lookup-informer_for :
      (t k : String) (i : I) (new_func : C → ℕ → I) (f : SharedInformerFactory C I T)
      → lookup t f.informers ≡ some i
      → lookup t (informer_for k new_func f).0.informers ≡ some i
  unfolding informer_for
  lookup-informer_for t k i new_func f known = elim (Option-cases (lookup k f.informers)) [
    | inl absent ↦ rw (absent, informer_for) (lookup-insert_known t k _ i f.informers known absent)
    | inr (j, present) ↦ rw (present, informer_for) known
  ]

  requests-Sound :
      (k : String) (new_func : C → ℕ → I) (s : Running C I T)
      → Sound s
      → Sound ((informer_for k new_func s.0).0, s.1)
  unfolding informer_for
  requests-Sound k new_func (f, log) sound = elim (Option-cases (lookup k f.informers)) [
    | inl absent ↦
        rw (absent, informer_for)
          (record {
            distinct = insert-IsMap k _ f.informers sound.distinct;
            counted = sound.counted;
            shared =
                λ t i ran. lookup-insert_known t k _ i f.informers (sound.shared t i ran) absent;
          })
    | inr (j, present) ↦ rw (present, informer_for) sound
  ]

  starts-Sound : (s : Running C I T) → Sound s → Sound ((start s.0).0, s.1 ++ (start s.0).1)
  unfolding start
  starts-Sound (f, log) sound = record {
    distinct = sound.distinct;
    counted = λ t.
        rw run_count-append
          (omega (arith, sound.counted t, start_loop-count t f.informers f.started_informers));
    shared = λ t i ran. elim (In-append_cases log _ ran) [
      | inl before ↦ sound.shared t i before
      | inr now ↦
          In-lookup t i f.informers sound.distinct
            (start_loop-In t i f.informers f.started_informers now)
    ];
  }

  use_all-Sound : (us : List (Use C I)) (s : Running C I T) → Sound s → Sound (use_all us s)
  unfolding use_all
  use_all-Sound [] s sound = sound
  use_all-Sound (requests k new_func ∷ us) (f, log) sound =
      use_all-Sound us _ (requests-Sound k new_func (f, log) sound)
  use_all-Sound (starts ∷ us) (f, log) sound = use_all-Sound us _ (starts-Sound (f, log) sound)

  lookup-use_all :
      (us : List (Use C I)) (t : String) (i : I) (s : Running C I T)
      → lookup t s.0.informers ≡ some i
      → lookup t (use_all us s).0.informers ≡ some i
  unfolding use_all start
  lookup-use_all [] t i s known = known
  lookup-use_all (requests k new_func ∷ us) t i (f, log) known =
      lookup-use_all us t i ((informer_for k new_func f).0, log)
        (lookup-informer_for t k i new_func f known)
  lookup-use_all (starts ∷ us) t i (f, log) known =
      lookup-use_all us t i ((start f).0, log ++ (start f).1) known

  lookup-informer_for_self :
      (t : String) (new_func : C → ℕ → I) (f : SharedInformerFactory C I T)
      → let (g, i) = informer_for t new_func f in lookup t g.informers ≡ some i
  unfolding informer_for
  lookup-informer_for_self t new_func f = elim (Option-cases (lookup t f.informers)) [
    | inl absent ↦ rw (absent, informer_for) (rw lookup-insert (rw (eq_refl t) refl))
    | inr (i, present) ↦ rw (present, informer_for) present
  ]

  informer_for-known :
      (t : String) (i : I) (new_func : C → ℕ → I) (f : SharedInformerFactory C I T)
      → lookup t f.informers ≡ some i
      → informer_for t new_func f ≡ (f, i)
  unfolding informer_for
  informer_for-known t i new_func f known = rw (known, informer_for) refl

  -- The informer of a type is made once: whatever is requested and started in between, a later request
  -- for the type gives the informer of the first one, and leaves the factory as it is.
  pub informer_for-use_all :
      (t : String) (first later : C → ℕ → I) (us : List (Use C I)) (s : Running C I T)
      → let (f, i) = informer_for t first s.0 in
        let g = (use_all us (f, s.1)).0 in informer_for t later g ≡ (g, i)
  informer_for-use_all t first later us s =
      informer_for-known t _ later _
        (lookup-use_all us t _ _ (lookup-informer_for_self t first s.0))

  -- A type that is started has an informer.
  started-has :
      (t : String) (s : Running C I T)
      → Sound s
      → (is_started t s.0.started_informers || has t s.0.informers) ≡ has t s.0.informers
  started-has t s sound = elim (Bool-cases (is_started t s.0.started_informers)) [
    | inl old ↦
        let counted : run_count t s.1 ≡ 1 = sound.counted t ∙ rw old refl in
        let (i, ran) = run_count-In t s.1 (omega arith) in rw (old, sound.shared t i ran, has) refl
    | inr new ↦ rw new refl
  ]

  pub informer_for_twice :
      (t : String) (first later : C → ℕ → I) (f : SharedInformerFactory C I T)
      → let (g, i) = informer_for t first f in informer_for t later g ≡ (g, i)
  informer_for_twice t first later f =
      informer_for-known t _ later _ (lookup-informer_for_self t first f)

  -- However a new factory is used, no informer of a type is run twice, each that is run is the one
  -- that is shared by the requests for its type, and a call of Start makes the types that were run
  -- exactly those that have an informer.
  pub start-once :
      (client : C) (resync : ℕ) (namespace : String) (tweak : Option T) (us : List (Use C I))
      → let s =
          use_all us (new_filtered_shared_informer_factory client resync namespace tweak, []) in
        ((t : String) → run_count t s.1 ≤ 1)
        × ((t : String) (i : I) → In (t, i) s.1 → lookup t s.0.informers ≡ some i)
        × ((t : String) → run_count t (s.1 ++ (start s.0).1) ≡ one (has t s.0.informers))
  unfolding start new_filtered_shared_informer_factory lookup
  start-once client resync namespace tweak us =
      let new_one = new_filtered_shared_informer_factory client resync namespace tweak in
      let s = use_all us (new_one, []) in
      let sound =
        use_all-Sound us (new_one, [])
          (record { distinct = tt; counted = λ t. refl; shared = λ t i ran. elim ran [ ] }) in
      (
        λ t. omega (arith, sound.counted t, one-le (is_started t s.0.started_informers)),
        sound.shared,
        λ t. rw run_count-append (
            omega (
              arith,
              sound.counted t,
              start_loop-count t s.0.informers s.0.started_informers,
              ap one
                  (start_loop-marks t s.0.informers s.0.started_informers ∙ started-has t s sound),
            )),
      )
