-- ===== src/Ntfy/Contract/Topics.antt =====
-- The stored form of a topic, and what a pattern matches.
use Prim.Native.Char.{Char, code}
use text.Mathlib.TextEquality.{Char-path}
use text.Mathlib.TextLemmas.{cons-append, nil-append}
use homeassistant_addons.Common.{
  ◌≡◌, ◌↔◌, refl, ap, sym, ◌∙◌, Bool, true, false, String, ◌<>◌, arith, eqb, string_eq, ◌-◌,
  Bool-cases, inl, inr, if◌then◌else◌,
}
use homeassistant_addons.Common.Text.{len, starts, replace_from, replace}
use homeassistant_addons.Common.Text.Replace.{replace-hit, replace-miss}
use homeassistant_addons.Common.Pattern.{is_char}
use homeassistant_addons.Ntfy.Contract.{
  cli_topic_to_db, db_topic_to_cli, skip, literal, topic_match,
}

-- What a pattern means: a `*` stands for any text, and any other character for itself.
abbrev pub Means : String → String → Type 0
Means String.[] topic = topic ≡ ""
Means (String.◌∷◌ a pattern) topic =
    if is_char b'*' a
    then ((u : String) × (v : String) × (topic ≡ u <> v) × Means pattern v)
    else ((v : String) × (topic ≡ String.◌∷◌ a v) × Means pattern v)

skip_sound :
    (p : String → Bool) (topic : String)
    → skip p topic ≡ true
    → (u : String) × (v : String) × (topic ≡ u <> v) × (p v ≡ true)
unfolding skip
skip_sound p String.[] h = ("", "", sym (nil-append ""), h)
skip_sound p (String.◌∷◌ c t) h = elim (Bool-cases (p (String.◌∷◌ c t))) [
  | inl e ↦ ("", String.◌∷◌ c t, sym (nil-append _), e)
  | inr e ↦
      let (u, v, q, r) = skip_sound p t (ground arith) in
      (String.◌∷◌ c u, v, ap (String.◌∷◌ c) q ∙ sym (cons-append c u v), r)
]

skip_complete : (p : String → Bool) (u v : String) → p v ≡ true → skip p (u <> v) ≡ true
unfolding skip
skip_complete p String.[] String.[] h = h
skip_complete p String.[] (String.◌∷◌ c v) h = rw (nil-append (String.◌∷◌ c v)) (ground arith)
skip_complete p (String.◌∷◌ c u) v h =
    rw (cons-append c u v) (ground (arith, skip_complete p u v h))

literal_sound :
    (a : Char) (p : String → Bool) (topic : String)
    → literal a p topic ≡ true
    → (v : String) × (topic ≡ String.◌∷◌ a v) × (p v ≡ true)
unfolding literal
literal_sound a p String.[] h = cc
literal_sound a p (String.◌∷◌ c t) h =
    (t, ap (λ d. String.◌∷◌ d t) (Char-path c a (ground arith)), ground arith)

literal_complete :
    (a : Char) (p : String → Bool) (v : String) → p v ≡ true → literal a p (String.◌∷◌ a v) ≡ true
unfolding literal
literal_complete a p v h = ground arith

topic_match_sound :
    (pattern topic : String) → topic_match pattern topic ≡ true → Means pattern topic
unfolding topic_match
topic_match_sound String.[] topic h = ground arith
topic_match_sound (String.◌∷◌ a pattern) topic h = elim (Bool-cases (is_char b'*' a)) [
  | inl e ↦
      let (u, v, q, r) = skip_sound (topic_match pattern) topic (rw e at h) in
      rw e (u, v, q, topic_match_sound pattern v r)
  | inr e ↦
      let (v, q, r) = literal_sound a (topic_match pattern) topic (rw e at h) in
      rw e (v, q, topic_match_sound pattern v r)
]

topic_match_complete :
    (pattern topic : String) → Means pattern topic → topic_match pattern topic ≡ true
unfolding topic_match
topic_match_complete String.[] topic h = ground arith
topic_match_complete (String.◌∷◌ a pattern) topic h = elim (Bool-cases (is_char b'*' a)) [
  | inl e ↦
      let (u, v, q, m) = rw e at h in
      rw (e, q) (skip_complete (topic_match pattern) u v (topic_match_complete pattern v m))
  | inr e ↦
      let (v, q, m) = rw e at h in
      rw (e, q) (literal_complete a (topic_match pattern) v (topic_match_complete pattern v m))
]

-- A pattern matches a topic exactly when the topic is the pattern with a text, empty or not, in the
-- place of each `*`.
pub topic_match_iff :
    (pattern topic : String) → (topic_match pattern topic ≡ true) ↔ Means pattern topic
topic_match_iff pattern topic =
    (topic_match_sound pattern topic, topic_match_complete pattern topic)

-- A text without `%` and `\`.
unfoldable pub is_plain : String → Bool
is_plain String.[] = true
is_plain (String.◌∷◌ c s) =
    if is_char b'%' c then false else if is_char b'\\' c then false else is_plain s

abbrev underscore : Char
underscore = "_"

abbrev backslash : Char
backslash = "\\"

abbrev percent : Char
percent = "%"

abbrev asterisk : Char
asterisk = "*"

-- The four replacements.
abbrev escape : String → String
escape = replace_from "_" "\\_" 0

abbrev to_percent : String → String
to_percent = replace_from "*" "%" 0

abbrev unescape : String → String
unescape = replace_from "\\_" "_" 0

abbrev to_asterisk : String → String
to_asterisk = replace_from "%" "*" 0

-- A text of one character starts what begins with it.
starts_one :
    (a : Char) (c : Char) (s : String)
    → starts (String.◌∷◌ a String.[]) (String.◌∷◌ c s) ≡ eqb (code a) (code c)
unfolding starts
starts_one a c s = ground arith

cons-text : (a : Char) (x : String) → String.◌∷◌ a String.[] <> x ≡ String.◌∷◌ a x
cons-text a x = cons-append a String.[] x ∙ ap (String.◌∷◌ a) (nil-append x)

module _ (a : Char) (new : String) (c : Char) (t : String) where
  abbrev after : String → String
  after = replace_from (String.◌∷◌ a String.[]) new 0

  replace_one-hit : eqb (code a) (code c) ≡ true → after (String.◌∷◌ c t) ≡ new <> after t
  replace_one-hit e = replace-hit (String.◌∷◌ a String.[]) new c t (starts_one a c t ∙ e) ∙ shorter
    where
      shorter :
          new <> replace_from (String.◌∷◌ a String.[]) new (len (String.◌∷◌ a String.[]) - 1) t
          ≡ new <> after t
      shorter = unfold len in refl

  replace_one-miss : eqb (code a) (code c) ≡ false → after (String.◌∷◌ c t) ≡ String.◌∷◌ c (after t)
  replace_one-miss e = replace-miss (String.◌∷◌ a String.[]) new c t (starts_one a c t ∙ e)

to_percent_other :
    (c : Char) (t : String)
    → eqb (code asterisk) (code c) ≡ false
    → to_percent (String.◌∷◌ c t) ≡ String.◌∷◌ c (to_percent t)
to_percent_other c t e = replace_one-miss asterisk "%" c t e

to_asterisk_other :
    (c : Char) (t : String)
    → eqb (code percent) (code c) ≡ false
    → to_asterisk (String.◌∷◌ c t) ≡ String.◌∷◌ c (to_asterisk t)
to_asterisk_other c t e = replace_one-miss percent "*" c t e

unescape_other :
    (c : Char) (t : String)
    → eqb (code backslash) (code c) ≡ false
    → unescape (String.◌∷◌ c t) ≡ String.◌∷◌ c (unescape t)
unescape_other c t e = replace-miss "\\_" "_" c t (unfold starts in ground arith)

unescape_pair :
    (t : String)
    → unescape (String.◌∷◌ backslash (String.◌∷◌ underscore t)) ≡ String.◌∷◌ underscore (unescape t)
unescape_pair t =
    replace-hit "\\_" "_" backslash (String.◌∷◌ underscore t) (unfold starts in refl)
    ∙ ap (λ x. "_" <> x) shorter
    ∙ cons-text underscore (unescape t)
  where
    shorter : replace_from "\\_" "_" (len "\\_" - 1) (String.◌∷◌ underscore t) ≡ unescape t
    shorter = unfold len replace_from in refl

-- The four replacements at a first character.
escaped :
    (c : Char) (t : String)
    → is_char b'_' c ≡ true
    → to_asterisk (unescape (to_percent (escape (String.◌∷◌ c t))))
      ≡ String.◌∷◌ c (to_asterisk (unescape (to_percent (escape t))))
escaped c t e =
    let same : c ≡ underscore = Char-path c underscore (ground arith) in
    ap (λ x. to_asterisk (unescape (to_percent x)))
      (replace_one-hit underscore "\\_" c t (ground arith)
        ∙ cons-append backslash "_" (escape t)
        ∙ ap (String.◌∷◌ backslash) (cons-text underscore (escape t)))
    ∙ ap (λ x. to_asterisk (unescape x))
        (to_percent_other backslash _ refl
          ∙ ap (String.◌∷◌ backslash) (to_percent_other underscore (escape t) refl))
    ∙ ap to_asterisk (unescape_pair (to_percent (escape t)))
    ∙ to_asterisk_other underscore _ refl
    ∙ ap (λ d. String.◌∷◌ d (to_asterisk (unescape (to_percent (escape t))))) (sym same)

starred :
    (c : Char) (t : String)
    → is_char b'*' c ≡ true
    → to_asterisk (unescape (to_percent (escape (String.◌∷◌ c t))))
      ≡ String.◌∷◌ c (to_asterisk (unescape (to_percent (escape t))))
starred c t e =
    let same : c ≡ asterisk = Char-path c asterisk (ground arith) in
    ap (λ x. to_asterisk (unescape (to_percent x)))
      (replace_one-miss underscore "\\_" c t (ground arith))
    ∙ ap (λ x. to_asterisk (unescape x))
        (replace_one-hit asterisk "%" c (escape t) (ground arith)
          ∙ cons-text percent (to_percent (escape t)))
    ∙ ap to_asterisk (unescape_other percent (to_percent (escape t)) refl)
    ∙ replace_one-hit percent "*" percent (unescape (to_percent (escape t))) refl
    ∙ cons-text asterisk _
    ∙ ap (λ d. String.◌∷◌ d (to_asterisk (unescape (to_percent (escape t))))) (sym same)

copied :
    (c : Char) (t : String)
    → is_char b'_' c ≡ false
    → is_char b'*' c ≡ false
    → is_char b'%' c ≡ false
    → is_char b'\\' c ≡ false
    → to_asterisk (unescape (to_percent (escape (String.◌∷◌ c t))))
      ≡ String.◌∷◌ c (to_asterisk (unescape (to_percent (escape t))))
copied c t a b d e =
    ap (λ x. to_asterisk (unescape (to_percent x)))
      (replace_one-miss underscore "\\_" c t (ground arith))
    ∙ ap (λ x. to_asterisk (unescape x)) (to_percent_other c (escape t) (ground arith))
    ∙ ap to_asterisk (unescape_other c (to_percent (escape t)) (ground arith))
    ∙ to_asterisk_other c _ (ground arith)

step :
    (c : Char) (t : String)
    → is_plain (String.◌∷◌ c t) ≡ true
    → to_asterisk (unescape (to_percent (escape (String.◌∷◌ c t))))
      ≡ String.◌∷◌ c (to_asterisk (unescape (to_percent (escape t))))
unfolding is_plain
step c t h = elim (Bool-cases (is_char b'_' c)) [
  | inl e ↦ escaped c t e
  | inr n ↦ elim (Bool-cases (is_char b'*' c)) [
    | inl e ↦ starred c t e
    | inr m ↦ copied c t n m (ground arith) (ground arith)
  ]
]

round_trip : (t : String) → is_plain t ≡ true → to_asterisk (unescape (to_percent (escape t))) ≡ t
unfolding is_plain
round_trip String.[] h = unfold replace_from in refl
round_trip (String.◌∷◌ c t) h = step c t h ∙ ap (String.◌∷◌ c) (round_trip t (ground arith))

-- The stored form of a topic without `%` and backslashes is read back as that topic.
pub db_topic_to_cli-cli_topic_to_db :
    (topic : String) → is_plain topic ≡ true → db_topic_to_cli (cli_topic_to_db topic) ≡ topic
unfolding db_topic_to_cli cli_topic_to_db replace
db_topic_to_cli-cli_topic_to_db topic h = round_trip topic h
