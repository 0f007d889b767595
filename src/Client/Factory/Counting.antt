-- ===== src/Client/Factory/Counting.antt =====
-- How often an informer of a type is run by the loop of Start
-- (pkg/client/informers/externalversions/factory.go).
use kubernetes_local_volume.Base.{
  ℕ, ◌≤◌, ◌<◌, ◌+◌, String, str_eq, eq_iff, Bool, Bool-cases, true, false, ◌||◌, ◌≡◌, refl, ap, sym,
  ◌∙◌, none, some, List, [], ◌∷◌, ◌++◌, In, here, there, inl, inr, arith,
}
use kubernetes_local_volume.Base.Dict.{Dict, lookup, insert, has, lookup-insert}
use kubernetes_local_volume.Client.Factory.{is_started, start_loop}

abbrev pub one : Bool → ℕ
one true = 1
one false = 0

-- How often an informer of the type was run.
abbrev pub run_count : {I : Type 0} → String → List (String × I) → ℕ
run_count t [] = 0
run_count t ((k, _) ∷ runs) = one (str_eq k t) + run_count t runs

pub run_count-append :
    {I : Type 0} (t : String) (xs ys : List (String × I))
    → run_count t (xs ++ ys) ≡ run_count t xs + run_count t ys
run_count-append t [] ys = omega arith
run_count-append t ((k, _) ∷ xs) ys = omega (arith, run_count-append t xs ys)

is_started-insert :
    (t k : String) (s : Dict Bool) → is_started t (insert k true s) ≡ (str_eq k t || is_started t s)
unfolding lookup
is_started-insert t k s = ground (arith, lookup-insert t k true s)

mark-one :
    (t k : String) (s : Dict Bool)
    → is_started k s ≡ false
    → one (str_eq k t) + one (is_started t s) ≡ one (is_started t (insert k true s))
mark-one t k s new = rw (is_started-insert t k s) (elim (Bool-cases (str_eq k t)) [
  | inl same ↦
      let fresh : is_started t s ≡ false = rw (← (eq_iff k t).0 same) new in rw (same, fresh) refl
  | inr other ↦ rw other (omega arith)
])

has-cons :
    {I : Type 0} (t k : String) (i : I) (m : Dict I) → has t ((k, i) ∷ m) ≡ (str_eq k t || has t m)
unfolding lookup
has-cons t k i m = ground arith

-- A type that is started already adds nothing, and another is added.
marks-old :
    {I : Type 0} (t k : String) (i : I) (m : Dict I) (s : Dict Bool)
    → is_started k s ≡ true
    → (is_started t s || has t m) ≡ (is_started t s || has t ((k, i) ∷ m))
marks-old t k i m s old = rw has-cons (elim (Bool-cases (str_eq k t)) [
  | inl same ↦ let known : is_started t s ≡ true = rw (← (eq_iff k t).0 same) old in rw known refl
  | inr other ↦ rw other refl
])

marks-new :
    {I : Type 0} (t k : String) (i : I) (m : Dict I) (s : Dict Bool)
    → (is_started t (insert k true s) || has t m) ≡ (is_started t s || has t ((k, i) ∷ m))
marks-new t k i m s =
    rw (is_started-insert t k s, has-cons) (swap (str_eq k t) (is_started t s) (has t m))
  where
    swap : (a b c : Bool) → ((a || b) || c) ≡ (b || (a || c))
    swap a b c = ground arith

-- What the loop of Start runs and marks.
pub start_loop-count :
    {I : Type 0} (t : String) (m : Dict I) (s : Dict Bool)
    → run_count t (start_loop m s).1 + one (is_started t s) ≡ one (is_started t (start_loop m s).0)
unfolding start_loop
start_loop-count t [] s = omega arith
start_loop-count t ((k, i) ∷ m) s = elim (Bool-cases (is_started k s)) [
  | inl old ↦ rw old (start_loop-count t m s)
  | inr new ↦ rw new (omega (arith, start_loop-count t m (insert k true s), mark-one t k s new))
]

pub start_loop-marks :
    {I : Type 0} (t : String) (m : Dict I) (s : Dict Bool)
    → is_started t (start_loop m s).0 ≡ (is_started t s || has t m)
unfolding start_loop lookup
start_loop-marks t [] s = ground arith
start_loop-marks t ((k, i) ∷ m) s = elim (Bool-cases (is_started k s)) [
  | inl old ↦ rw old (start_loop-marks t m s ∙ marks-old t k i m s old)
  | inr new ↦ rw new (start_loop-marks t m (insert k true s) ∙ marks-new t k i m s)
]

pub start_loop-In :
    {I : Type 0} (t : String) (i : I) (m : Dict I) (s : Dict Bool)
    → In (t, i) (start_loop m s).1
    → In (t, i) m
unfolding start_loop
start_loop-In t i [] s = λ found. found
start_loop-In t i ((k, j) ∷ m) s = elim (Bool-cases (is_started k s)) [
  | inl old ↦ rw old (λ found. there (start_loop-In t i m s found))
  | inr new ↦ rw new (at (start_loop-In t i m (insert k true s)))
]
  where
    at :
        (In (t, i) (start_loop m (insert k true s)).1 → In (t, i) m)
        → In (t, i) ((k, j) ∷ (start_loop m (insert k true s)).1)
        → In (t, i) ((k, j) ∷ m)
    at later (here e) = here e
    at later (there x) = there (later x)

pub lookup-insert_known :
    {V : Type 0} (t k : String) (v w : V) (m : Dict V)
    → lookup t m ≡ some w
    → lookup k m ≡ none
    → lookup t (insert k v m) ≡ some w
lookup-insert_known t k v w m known absent = rw lookup-insert (elim (Bool-cases (str_eq k t)) [
  | inl same ↦ (let one_key = (eq_iff k t).0 same in cc)
  | inr other ↦ rw other known
])

pub run_count-In :
    {I : Type 0} (t : String) (log : List (String × I))
    → 0 < run_count t log
    → (i : I) × In (t, i) log
run_count-In t [] h = absurd (omega arith)
run_count-In {I} t ((k, i) ∷ log) h = elim (Bool-cases (str_eq k t)) [
  | inl same ↦ (i, here (ap (λ key. (key, i)) (sym ((eq_iff k t).0 same))))
  | inr other ↦
      let (j, found) = run_count-In t log (let more = rw other at h in omega arith) in
      (j, there found)
]

pub one-le : (b : Bool) → one b ≤ 1
one-le b = ground arith
