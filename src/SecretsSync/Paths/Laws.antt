-- ===== src/SecretsSync/Paths/Laws.antt =====
-- What a path that `safe_relpath` accepts looks like, and that every such path is accepted.
use Prim.Native.Char.{Char, code}
use Prim.Native.String.{String}
use text.Mathlib.TextEquality.{Char-path}
use text.Mathlib.TextLemmas.{nil-append, cons-append, append-nil, append-eq-nil_iff}
use homeassistant_addons.Common.{
  ℕ, ◌≡◌, ◌≢◌, refl, ap, true, false, ◌||◌, List, [], ◌∷◌, arith, eqb, ok, All, any, ◌<>◌,
  string_eq, Bool-cases, inl, inr, ◌⊎◌,
}
use homeassistant_addons.SecretsSync.Paths.{
  split, safe_relpath, has_char, is_absolute, is_dots, push,
}

abbrev slash : Char
slash = "/"

-- `"/".join(parts)`
abbrev pub join : List String → String
join [] = String.[]
join (p ∷ []) = p
join (p ∷ q ∷ parts) = p <> String.◌∷◌ slash (join (q ∷ parts))

-- A segment that may stand in a path.
pub record IsSegment (p : String) : Type 0 where
  pub plain : is_dots p ≡ false
  pub no_slash : has_char b'/' p ≡ false
  pub no_backslash : has_char b'\\' p ≡ false
  pub no_nul : has_char 0 p ≡ false

push-ne-nil : (d : Char) (parts : List String) → push d parts ≢ []
push-ne-nil d [] h = cc
push-ne-nil d (p ∷ parts) h = cc

split-ne-nil : (s : String) → split s ≢ []
unfolding split
split-ne-nil String.[] h = cc
split-ne-nil (String.◌∷◌ d s) h = elim (Bool-cases (eqb (code d) b'/')) [
  | inl e ↦ cc (rw e at h)
  | inr e ↦ push-ne-nil d (split s) (rw e at h)
]

join-cons :
    (parts : List String) → parts ≢ [] → join (String.[] ∷ parts) ≡ String.◌∷◌ slash (join parts)
join-cons [] h = absurd (h refl)
join-cons (p ∷ parts) h = nil-append _

join-push : (d : Char) (parts : List String) → join (push d parts) ≡ String.◌∷◌ d (join parts)
join-push d [] = refl
join-push d (p ∷ []) = refl
join-push d (p ∷ q ∷ parts) = cons-append d p _

slash_lem : (d : Char) → eqb (code d) b'/' ≡ true → d ≡ slash
slash_lem d h = Char-path d slash (ground arith)

-- Joining the segments of `split` gives the text back.
join-split : (s : String) → join (split s) ≡ s
unfolding split
join-split String.[] = refl
join-split (String.◌∷◌ d s) = elim (Bool-cases (eqb (code d) b'/')) [
  | inl e ↦
      rw (e, join-cons (split s) (split-ne-nil s), slash_lem d e)
        (ap (λ r. String.◌∷◌ slash r) (join-split s))
  | inr e ↦ rw (e, join-push) (ap (λ r. String.◌∷◌ d r) (join-split s))
]

-- A text with no slash is one segment.
split-no_slash : (p : String) → has_char b'/' p ≡ false → split p ≡ p ∷ []
unfolding split has_char
split-no_slash String.[] h = refl
split-no_slash (String.◌∷◌ d s) h = elim (Bool-cases (eqb (code d) b'/')) [
  | inl e ↦ cc (rw e at h)
  | inr e ↦ rw (e, split-no_slash s (rw e at h))
]

split-append :
    (p s : String) → has_char b'/' p ≡ false → split (p <> String.◌∷◌ slash s) ≡ p ∷ split s
unfolding split has_char
split-append String.[] s h = rw nil-append
split-append (String.◌∷◌ d p) s h = elim (Bool-cases (eqb (code d) b'/')) [
  | inl e ↦ cc (rw e at h)
  | inr e ↦ rw (cons-append, e, split-append p s (rw e at h))
]

split-join :
    (p : String) (parts : List String)
    → All IsSegment (p ∷ parts)
    → split (join (p ∷ parts)) ≡ p ∷ parts
split-join p [] (h, _) = split-no_slash p h.no_slash
split-join p (q ∷ parts) (h, hs) = rw (split-append p _ h.no_slash, split-join q parts hs)

has_char-append : (c : ℕ) (s t : String) → has_char c (s <> t) ≡ (has_char c s || has_char c t)
unfolding has_char
has_char-append c String.[] t = rw nil-append
has_char-append c (String.◌∷◌ d s) t = rw cons-append (ground (arith, has_char-append c s t))

abbrev Free : ℕ → String → Type 0
Free c s = has_char c s ≡ false

-- A character other than the slash is in the joined text only if it is in a segment.
has_char-join :
    (c : ℕ) (parts : List String) → eqb b'/' c ≡ false → All (Free c) parts → Free c (join parts)
unfolding has_char
has_char-join c [] e h = refl
has_char-join c (p ∷ []) e h = h.0
has_char-join c (p ∷ q ∷ parts) e (h, hs) =
    rw (has_char-append c p (String.◌∷◌ slash (join (q ∷ parts))))
      (ground (arith, has_char-join c (q ∷ parts) e hs))

push-Free :
    (c : ℕ) (d : Char) (parts : List String)
    → eqb (code d) c ≡ false
    → All (Free c) parts
    → All (Free c) (push d parts)
unfolding has_char
push-Free c d [] e h = (rw e, tt)
push-Free c d (p ∷ parts) e (h, hs) = (rw (e, has_char) h, hs)

-- The segments have no slash, and no character that the text does not have.
split-Free : (c : ℕ) (s : String) → (c ≡ b'/') ⊎ Free c s → All (Free c) (split s)
unfolding has_char split
split-Free c String.[] h = (refl, tt)
split-Free c (String.◌∷◌ d s) h = elim (Bool-cases (eqb (code d) b'/')) [
  | inl e ↦ rw e (refl, split-Free c s (ground arith))
  | inr e ↦ rw e (push-Free c d (split s) (ground arith) (split-Free c s (ground arith)))
]

All-IsSegment :
    (parts : List String)
    → any is_dots parts ≡ false
    → All (Free b'/') parts
    → All (Free b'\\') parts
    → All (Free 0) parts
    → All IsSegment parts
All-IsSegment [] h a b c = tt
All-IsSegment (p ∷ parts) h (a, as') (b, bs) (c, cs) = (
  record { plain = ground arith; no_slash = a; no_backslash = b; no_nul = c },
  All-IsSegment parts (ground arith) as' bs cs,
)

any-is_dots : (parts : List String) → All IsSegment parts → any is_dots parts ≡ false
any-is_dots [] h = refl
any-is_dots (p ∷ parts) (h, hs) = ground (arith, h.plain, any-is_dots parts hs)

record IsAccepted (rel : String) (parts : List String) : Type 0 where
  parts_eq : parts ≡ split rel
  no_backslash : has_char b'\\' rel ≡ false
  no_nul : has_char 0 rel ≡ false
  plain : any is_dots (split rel) ≡ false

safe_relpath-IsAccepted :
    (rel : String) (parts : List String) → safe_relpath rel ≡ ok parts → IsAccepted rel parts
unfolding safe_relpath
safe_relpath-IsAccepted rel parts h = ground arith

-- What is accepted splits into a segment at least, joins back to the text, and each segment is
-- free of slashes, backslashes and NUL and is none of "", "." and "..".
pub safe_relpath-eq-ok :
    (rel : String) (parts : List String)
    → safe_relpath rel ≡ ok parts
    → (join parts ≡ rel) × (parts ≢ []) × All IsSegment parts
safe_relpath-eq-ok rel parts h =
    let a = safe_relpath-IsAccepted rel parts h in
    rw a.parts_eq (
      join-split rel,
      split-ne-nil rel,
      All-IsSegment (split rel) a.plain (split-Free b'/' rel (inl refl))
          (split-Free b'\\' rel (inr a.no_backslash)) (split-Free 0 rel (inr a.no_nul)),
    )

is_dots_empty : is_dots "" ≡ true
unfolding is_dots string_eq
is_dots_empty = refl

segment-ne-nil : (p : String) → IsSegment p → p ≢ ""
segment-ne-nil p h e = cc (rw e at h.plain, is_dots_empty)

is_absolute-append : (p t : String) → IsSegment p → is_absolute (p <> t) ≡ false
unfolding is_absolute has_char
is_absolute-append String.[] t h = absurd (segment-ne-nil "" h refl)
is_absolute-append (String.◌∷◌ d p) t h = rw cons-append (ground (arith, h.no_slash))

is_absolute-join :
    (p : String) (parts : List String)
    → All IsSegment (p ∷ parts)
    → is_absolute (join (p ∷ parts)) ≡ false
is_absolute-join p [] (h, _) = rw (← append-nil p) (is_absolute-append p "" h)
is_absolute-join p (q ∷ parts) (h, _) = is_absolute-append p _ h

join-ne-nil : (p : String) (parts : List String) → IsSegment p → join (p ∷ parts) ≢ ""
join-ne-nil p [] h e = segment-ne-nil p h e
join-ne-nil p (q ∷ parts) h e = segment-ne-nil p h (append-eq-nil_iff.0 e).0

no_backslash-All : (parts : List String) → All IsSegment parts → All (Free b'\\') parts
no_backslash-All [] h = tt
no_backslash-All (p ∷ parts) (h, hs) = (h.no_backslash, no_backslash-All parts hs)

no_nul-All : (parts : List String) → All IsSegment parts → All (Free 0) parts
no_nul-All [] h = tt
no_nul-All (p ∷ parts) (h, hs) = (h.no_nul, no_nul-All parts hs)

-- Every list of one segment or more comes back from the text that joins it.
pub safe_relpath-join :
    (p : String) (parts : List String)
    → All IsSegment (p ∷ parts)
    → safe_relpath (join (p ∷ parts)) ≡ ok (p ∷ parts)
unfolding safe_relpath
safe_relpath-join p parts h =
    rw
      (
        is_absolute-join p parts h,
        has_char-join b'\\' (p ∷ parts) refl (no_backslash-All (p ∷ parts) h),
        has_char-join 0 (p ∷ parts) refl (no_nul-All (p ∷ parts) h),
        split-join p parts h,
        any-is_dots (p ∷ parts) h,
      )
      (ground (arith, join-ne-nil p parts h.0))
