-- ===== src/Host/Laws.antt =====
-- Rules for what a function of the program leaves of a property of the history: `Keeps P m` says that
-- every run of `m` from a history with the property ends in one with the property, whatever the
-- outcome; `Ends P Q m` adds what holds when a value is returned.
use kubernetes_local_volume.Base.{subst, String, ◌≡◌, refl, Bool, true, false, if◌then◌else◌}
use kubernetes_local_volume.Fault.{
  ok-injective, Outcome, ok, fail, panic, Error, Reply, got, refused, plain, status, missing_file,
  missing_object, missing_executable, not_a_number,
}
use kubernetes_local_volume.Host.{
  Host, Io, History, pure, throw, lift, continue, ◌>>=◌, ◌>>◌, attempt, internal, internal_outcome,
  prefixed, relabel,
}

relabel-ok :
    {A : Type 0} (H : Host) (message : String) (o : Outcome A) {a : A}
    → relabel H message o ≡ ok a
    → o ≡ ok a
relabel-ok H message (ok b) e = e
relabel-ok H message (fail x) e = cc
relabel-ok H message panic e = cc

module _ (P : History → Type 0) where
  pub record Keeps {A : Type 0} (m : Io A) : Type 0 where
    pub keeps : (h : History) → P h → P (m h).1

  pub record Ends {A : Type 0} (Q : A → History → Type 0) (m : Io A) : Type 0 where
    pub ends : (h : History) → P h → P (m h).1 × ((a : A) → (m h).0 ≡ ok a → Q a (m h).1)

module _ (P : History → Type 0) where
  continue-keeps :
      {A B : Type 0} (o : Outcome A) (h : History) (f : A → Io B)
      → P h
      → ((a : A) → o ≡ ok a → P (f a h).1)
      → P (continue o h f).1
  continue-keeps (ok a) h f p k = k a refl
  continue-keeps (fail e) h f p k = p
  continue-keeps panic h f p k = p

module _ {P : History → Type 0} where
  module _ {A B : Type 0} {m : Io A} where
    pub bind : {f : A → Io B} → Keeps P m → ((a : A) → Keeps P (f a)) → Keeps P (m >>= f)
    bind {f} k l = record {
      keeps = λ h p.
          continue-keeps P (m h).0 (m h).1 f (k.keeps h p)
            (λ a e. (l a).keeps (m h).1 (k.keeps h p));
    }

    pub next : {n : Io B} → Keeps P m → Keeps P n → Keeps P (m >> n)
    next {n} k l = record {
      keeps = λ h p.
          continue-keeps P (m h).0 (m h).1 (λ _. n) (k.keeps h p)
            (λ a e. l.keeps (m h).1 (k.keeps h p));
    }

    -- A bind whose second part relies on what the first one ends with.
    pub bind-Ends :
        {Q : A → History → Type 0} (f : A → Io B)
        → Ends P Q m
        → ((a : A) (h : History) → P h → Q a h → P (f a h).1)
        → Keeps P (m >>= f)
    bind-Ends f k l = record {
      keeps = λ h p.
          continue-keeps P (m h).0 (m h).1 f (k.ends h p).0
            (λ a e. l a (m h).1 (k.ends h p).0 ((k.ends h p).1 a e));
    }

  module _ {A : Type 0} where
    pub pure-Keeps : {a : A} → Keeps P (pure a)
    pure-Keeps = record { keeps = λ h p. p }

    pub throw-Keeps : {e : Error} → Keeps P (throw {A = A} e)
    throw-Keeps = record { keeps = λ h p. p }

    pub lift-Keeps : {o : Outcome A} → Keeps P (lift o)
    lift-Keeps = record { keeps = λ h p. p }

    pub attempt-Keeps : {m : Io A} → Keeps P m → Keeps P (attempt m)
    attempt-Keeps k = record { keeps = k.keeps }

    pub internal-Keeps : (H : Host) {m : Io A} → Keeps P m → Keeps P (internal H m)
    internal-Keeps H k = record { keeps = k.keeps }

    pub if-Keeps : (b : Bool) {m n : Io A} → Keeps P m → Keeps P n → Keeps P (if b then m else n)
    if-Keeps true k l = k
    if-Keeps false k l = l

    pub prefixed-Keeps :
        (H : Host) (message : String) {m : Io A} → Keeps P m → Keeps P (prefixed H message m)
    prefixed-Keeps H message k = record { keeps = k.keeps }

    pub prefixed-Ends :
        {Q : A → History → Type 0} (H : Host) (message : String) {m : Io A}
        → Ends P Q m
        → Ends P Q (prefixed H message m)
    prefixed-Ends H message {m} k = record {
      ends = λ h p. ((k.ends h p).0, λ a e. (k.ends h p).1 a (relabel-ok H message (m h).0 e));
    }

module _ {P : History → Type 0} {A B : Type 0} where
  -- The answer of a lister, on which the rest may rely: an object that is missing is no error.
  pub listed_got-Keeps :
      (r : Reply A) (b : B) {m : A → Io B}
      → ((a : A) → r ≡ got a → Keeps P (m a))
      → Keeps P (elim r [ refused (missing_object _) ↦ pure b | refused e ↦ throw e | got a ↦ m a ])
  listed_got-Keeps (got a) b k = k a refl
  listed_got-Keeps (refused (plain _)) b k = throw-Keeps
  listed_got-Keeps (refused (status _ _)) b k = throw-Keeps
  listed_got-Keeps (refused (missing_file _)) b k = throw-Keeps
  listed_got-Keeps (refused (missing_object _)) b k = pure-Keeps
  listed_got-Keeps (refused (missing_executable _)) b k = throw-Keeps
  listed_got-Keeps (refused (not_a_number _)) b k = throw-Keeps

  pub listed-Keeps :
      (r : Reply A) (b : B) {m : A → Io B}
      → ((a : A) → Keeps P (m a))
      → Keeps P (elim r [ refused (missing_object _) ↦ pure b | refused e ↦ throw e | got a ↦ m a ])
  listed-Keeps r b k = listed_got-Keeps r b (λ a e. k a)

module _ {P : History → Type 0} {A : Type 0} {Q : A → History → Type 0} where
  pub pure-Ends : {a : A} → ((h : History) → Q a h) → Ends P Q (pure a)
  pure-Ends {a} q = record { ends = λ h p. (p, λ b e. subst (λ c. Q c h) (ok-injective e) (q h)) }

  pub if-Ends : (b : Bool) {m n : Io A} → Ends P Q m → Ends P Q n → Ends P Q (if b then m else n)
  if-Ends true k l = k
  if-Ends false k l = l

module _ {P : History → Type 0} {A B : Type 0} {Q : B → History → Type 0} where
  continue-Ends :
      (o : Outcome A) (h : History) (f : A → Io B)
      → P h
      → ((a : A) → Ends P Q (f a))
      → P (continue o h f).1 × ((b : B) → (continue o h f).0 ≡ ok b → Q b (continue o h f).1)
  continue-Ends (ok a) h f p k = (k a).ends h p
  continue-Ends (fail e) h f p k = (p, λ b e. cc)
  continue-Ends panic h f p k = (p, λ b e. cc)

  pub then-Ends :
      (m : Io A) {f : A → Io B} → Keeps P m → ((a : A) → Ends P Q (f a)) → Ends P Q (m >>= f)
  then-Ends m {f} k l = record { ends = λ h p. continue-Ends (m h).0 (m h).1 f (k.keeps h p) l }

module _ (P : History → Type 0) {A B : Type 0} (R : B → History → Type 0) where
  continue-carries :
      (o : Outcome A) (h : History) (f : A → Io B)
      → P h
      → ((a : A) → o ≡ ok a → P (f a h).1 × ((b : B) → (f a h).0 ≡ ok b → R b (f a h).1))
      → P (continue o h f).1 × ((b : B) → (continue o h f).0 ≡ ok b → R b (continue o h f).1)
  continue-carries (ok a) h f p k = k a refl
  continue-carries (fail e) h f p k = (p, λ b e. cc)
  continue-carries panic h f p k = (p, λ b e. cc)

module _ {P : History → Type 0} {A B : Type 0} {Q : A → History → Type 0}
    {R : B → History → Type 0} where
  -- A bind whose second part relies on what the first one ends with, and returns something itself.
  pub carry-Ends :
      (m : Io A) {f : A → Io B}
      → Ends P Q m
      → ((a : A) (h : History)
          → P h
          → Q a h
          → P (f a h).1 × ((b : B) → (f a h).0 ≡ ok b → R b (f a h).1))
      → Ends P R (m >>= f)
  carry-Ends m {f} k l = record {
    ends = λ h p.
        continue-carries P R (m h).0 (m h).1 f (k.ends h p).0
          (λ a e. l a (m h).1 (k.ends h p).0 ((k.ends h p).1 a e));
  }

-- `Returns Q m`: where `m` returns a value, the history that it leaves has the property `Q`.
module _ (Q : History → Type 0) where
  pub record Returns {A : Type 0} (m : Io A) : Type 0 where
    pub returns : (h : History) (a : A) → (m h).0 ≡ ok a → Q (m h).1

module _ (Q : History → Type 0) where
  continue-returns :
      {A B : Type 0} (o : Outcome A) (h : History) (f : A → Io B) (b : B)
      → ((a : A) → Returns Q (f a))
      → (continue o h f).0 ≡ ok b
      → Q (continue o h f).1
  continue-returns (ok a) h f b k e = (k a).returns h b e
  continue-returns (fail x) h f b k e = cc
  continue-returns panic h f b k e = cc

internal-ok :
    {A : Type 0} (H : Host) (o : Outcome A) {a : A} → internal_outcome H o ≡ ok a → o ≡ ok a
internal-ok H (ok b) e = e
internal-ok H (fail x) e = cc
internal-ok H panic e = cc

module _ {Q : History → Type 0} {A B : Type 0} where
  pub last : (m : Io A) {f : A → Io B} → ((a : A) → Returns Q (f a)) → Returns Q (m >>= f)
  last m {f} k = record { returns = λ h b e. continue-returns Q (m h).0 (m h).1 f b k e }

  pub last_next : (m : Io A) {n : Io B} → Returns Q n → Returns Q (m >> n)
  last_next m {n} k = record {
    returns = λ h b e. continue-returns Q (m h).0 (m h).1 (λ _. n) b (λ _. k) e;
  }

pub internal-Returns :
    {Q : History → Type 0} {A : Type 0} (H : Host) {m : Io A}
    → Returns Q m
    → Returns Q (internal H m)
internal-Returns H {m} k = record { returns = λ h a e. k.returns h a (internal-ok H (m h).0 e) }
