-- ===== src/Types/Keys.antt =====
-- The keys of claims: MakePVCKey and SplitPVCKey of pkg/common/types/types.go.
use text.Mathlib.TextLemmas.{nil-append, cons-append}
use text.Mathlib.TextEquality.{Char-path}
use mathlib.Core.Path.{ap₂}
use kubernetes_local_volume.Base.{
  ℕ, String, Char, code, ◌<>◌, split, join, extend_head, ◌≡◌, ◌≢◌, refl, sym, ap, ◌∙◌, Bool, false,
  ◌||◌, List, [], ◌∷◌, arith, ◌==◌, ==_iff, Bool-cases, inl, inr, ◌⊎◌,
}
use kubernetes_local_volume.Types.{make_pvc_key, split_pvc_key, two_parts}

-- Some character of the text has the code point.
unfoldable pub has_code : ℕ → String → Bool
has_code k String.[] = false
has_code k (String.◌∷◌ c s) = code c == k || has_code k s

pub split_no_separator : (sep : ℕ) (s : String) → has_code sep s ≡ false → split sep s ≡ s ∷ []
unfolding has_code split
split_no_separator sep String.[] h = refl
split_no_separator sep (String.◌∷◌ c s) h = ground (arith, split_no_separator sep s)

split-append :
    (c : Char) (s t : String)
    → has_code (code c) s ≡ false
    → split (code c) (s <> String.◌∷◌ c t) ≡ s ∷ split (code c) t
unfolding has_code split
split-append c String.[] t h = rw nil-append (ground arith)
split-append c (String.◌∷◌ d s) t h = rw cons-append (ground (arith, split-append c s t))

abbrev pub slash : Char
slash = "/"

make_pvc_key-cons :
    (namespace name : String) → make_pvc_key namespace name ≡ namespace <> String.◌∷◌ slash name
unfolding make_pvc_key
make_pvc_key-cons namespace name =
    ap (λ t. namespace <> t)
      (cons-append slash String.[] name ∙ ap (String.◌∷◌ slash) (nil-append name))

-- The key of a namespace and a name splits at its slash.
pub split_key :
    (namespace name : String)
    → has_code b'/' namespace ≡ false
    → has_code b'/' name ≡ false
    → split b'/' (make_pvc_key namespace name) ≡ namespace ∷ name ∷ []
split_key namespace name h k =
    rw make_pvc_key-cons
      (rw (split-append slash namespace name h) (rw (split_no_separator b'/' name k)))

-- A namespace and a name without a slash come back from their key.
pub split_pvc_key-make_pvc_key :
    (namespace name : String)
    → has_code b'/' namespace ≡ false
    → has_code b'/' name ≡ false
    → split_pvc_key (make_pvc_key namespace name) ≡ (namespace, name)
unfolding split_pvc_key
split_pvc_key-make_pvc_key namespace name h k = rw (split_key namespace name h k) refl

join-extend_head :
    (c : Char) (ps : List String) → join "/" (extend_head c ps) ≡ String.◌∷◌ c (join "/" ps)
unfolding join
join-extend_head c [] = refl
join-extend_head c (p ∷ []) = refl
join-extend_head c (p ∷ q ∷ ps) = cons-append c p ("/" <> join "/" (q ∷ ps))

join-nil-cons : (ps : List String) → ps ≢ [] → join "/" ("" ∷ ps) ≡ String.◌∷◌ slash (join "/" ps)
unfolding join
join-nil-cons [] h = absurd (h refl)
join-nil-cons (p ∷ ps) h =
    nil-append _
    ∙ cons-append slash String.[] (join "/" (p ∷ ps))
    ∙ ap (String.◌∷◌ slash) (nil-append _)

pub split-ne-nil : (sep : ℕ) (s : String) → split sep s ≢ []
unfolding split
split-ne-nil sep String.[] = ground arith
split-ne-nil sep (String.◌∷◌ c s) = ground (arith, split-ne-nil sep s)

-- Joined by its separator again, a split text is the text.
join-split : (s : String) → join "/" (split b'/' s) ≡ s
unfolding split
join-split String.[] = unfold join in refl
join-split (String.◌∷◌ c s) = elim (Bool-cases (code c == b'/')) [
  | inl same ↦ rw same (
      join-nil-cons (split b'/' s) (split-ne-nil b'/' s)
      ∙ ap₂ String.◌∷◌ (Char-path slash c (sym ((==_iff (code c) b'/').0 same))) (join-split s))
  | inr other ↦ rw other (join-extend_head c (split b'/' s) ∙ ap (String.◌∷◌ c) (join-split s))
]

make_two_parts :
    (ps : List String)
    → (two_parts ps ≡ ("", "")) ⊎ (make_pvc_key (two_parts ps).0 (two_parts ps).1 ≡ join "/" ps)
unfolding make_pvc_key join
make_two_parts [] = inl refl
make_two_parts (a ∷ []) = inl refl
make_two_parts (a ∷ b ∷ []) = inr refl
make_two_parts (a ∷ b ∷ c ∷ ps) = inl refl

-- Splitting a key gives two empty texts, or parts whose key it is.
make_pvc_key-split_pvc_key :
    (key : String)
    → (split_pvc_key key ≡ ("", ""))
      ⊎ (make_pvc_key (split_pvc_key key).0 (split_pvc_key key).1 ≡ key)
unfolding split_pvc_key
make_pvc_key-split_pvc_key key = rw (join-split key) at (make_two_parts (split b'/' key))
