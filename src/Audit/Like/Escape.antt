-- ===== src/Audit/Like/Escape.antt =====
-- An escaped text between two `%` finds the text itself.
use Prim.Native.Char.{Char, code}
use nurix_takehome.Common.{
  ℕ, String, ◌≡◌, ◌≢◌, ◌↔◌, refl, ap, ◌∙◌, inl, inr, Bool, true, false, ◌||◌, some, List, [], ◌∷◌,
  arith, ◌==◌, if◌then◌else◌, Bool-cases,
}
use nurix_takehome.Audit.Like.{
  put_escape, escape, append, pattern_of, Token, any_run, lit, prepend_token, token_of, tokens,
  matches, like,
}

other : (n m : ℕ) (c : Char) → n ≢ m → (code c == n) ≡ true → (code c == m) ≡ false
other n m c d h = ground arith

abbrev is_meta : Char → Bool
is_meta c = code c == b'\\' || code c == b'%' || code c == b'_'

not_percent : (c : Char) → is_meta c ≡ false → (code c == b'%') ≡ false
not_percent c h = ground arith

not_underscore : (c : Char) → is_meta c ≡ false → (code c == b'_') ≡ false
not_underscore c h = ground arith

abbrev guarded : Char → String → String
guarded c s = if is_meta c then String.◌∷◌ "\\" (String.◌∷◌ c s) else String.◌∷◌ c s

escape-cons : (c : Char) (s : String) → escape (String.◌∷◌ c s) ≡ guarded c (escape s)
unfolding escape put_escape
escape-cons c s = elim (Bool-cases (code c == b'\\')) [
  | inl e ↦
      rw e (rw (other b'\\' b'%' c (omega arith) e) (rw (other b'\\' b'_' c (omega arith) e) refl))
  | inr e ↦ elim (Bool-cases (code c == b'%')) [
    | inl f ↦ rw e (rw f (rw (other b'%' b'_' c (omega arith) f) refl))
    | inr f ↦ elim (Bool-cases (code c == b'_')) [
      | inl g ↦ rw e (rw f (rw g refl))
      | inr g ↦ rw e (rw f (rw g refl))
    ]
  ]
]

token_of-plain : (c : Char) → is_meta c ≡ false → token_of c ≡ lit c
token_of-plain c h = rw (not_percent c h) (rw (not_underscore c h) refl)

plain_step :
    (c : Char) (x : String)
    → (code c == b'\\') ≡ false
    → tokens (String.◌∷◌ c (append x "%")) ≡ prepend_token (token_of c) (tokens (append x "%"))
unfolding tokens
plain_step c String.[] h = rw h refl
plain_step c (String.◌∷◌ d x) h = rw h refl

-- The characters of a text as they are, before other tokens.
abbrev literally : String → List Token → List Token
literally String.[] ts = ts
literally (String.◌∷◌ c s) ts = lit c ∷ literally s ts

tokens-escape : (s : String) → tokens (append (escape s) "%") ≡ some (literally s (any_run ∷ []))
unfolding tokens escape
tokens-escape String.[] = refl
tokens-escape (String.◌∷◌ c s) = elim (Bool-cases (is_meta c)) [
  | inl e ↦ rw (escape-cons c s) (rw e (ap (prepend_token (lit c)) (tokens-escape s)))
  | inr e ↦ rw (escape-cons c s) (
      rw e (
        plain_step c (escape s) (ground arith)
        ∙ ap (prepend_token (token_of c)) (tokens-escape s)
        ∙ ap (λ t. some (t ∷ literally s (any_run ∷ []))) (token_of-plain c e)))
]

tokens-pattern_of :
    (s : String) → tokens (pattern_of s) ≡ some (any_run ∷ literally s (any_run ∷ []))
unfolding pattern_of
tokens-pattern_of s = plain_step "%" (escape s) refl ∙ ap (prepend_token any_run) (tokens-escape s)

module _ (same : Char → Char → Bool) where
  -- The texts are the same, character by character.
  abbrev pub SameText : String → String → Type 0
  SameText String.[] String.[] = Unit
  SameText String.[] (String.◌∷◌ d v) = ⊥
  SameText (String.◌∷◌ c s) String.[] = ⊥
  SameText (String.◌∷◌ c s) (String.◌∷◌ d v) = (same c d ≡ true) × SameText s v

  -- Some part of the text `t` is the same as `s`.
  abbrev pub Contains : String → String → Type 0
  Contains s t =
      (u : String) × (v : String) × (w : String) × (t ≡ append u (append v w)) × SameText s v

  any_text : (t : String) → matches same (any_run ∷ []) t ≡ true
  unfolding matches
  any_text String.[] = refl
  any_text (String.◌∷◌ d t) = any_text t

  StartsWith : String → String → Type 0
  StartsWith s t = (v : String) × (w : String) × (t ≡ append v w) × SameText s v

  first_same :
      (c : Char) (s v : String)
      → SameText (String.◌∷◌ c s) v
      → (d : Char) × (v' : String) × (v ≡ String.◌∷◌ d v') × (same c d ≡ true) × SameText s v'
  first_same c s String.[] h = absurd h
  first_same c s (String.◌∷◌ d v) (a, h) = (d, v, refl, a, h)

  no_start : (c : Char) (s v w : String) → String.[] ≡ append v w → SameText (String.◌∷◌ c s) v → ⊥
  no_start c s String.[] w e h = h
  no_start c s (String.◌∷◌ d v) w e h = cc

  start_iff : (s t : String) → (matches same (literally s (any_run ∷ [])) t ≡ true) ↔ StartsWith s t
  unfolding matches StartsWith
  start_iff String.[] t = (λ h. (String.[], t, refl, tt), λ _. any_text t)
  start_iff (String.◌∷◌ c s) String.[] = (λ h. cc, λ (v, w, e, k). absurd (no_start c s v w e k))
  start_iff (String.◌∷◌ c s) (String.◌∷◌ d t) = (
    λ h.
        let (v, w, e, k) = (start_iff s t).0 (ground arith) in
        (String.◌∷◌ d v, w, ap (λ x. String.◌∷◌ d x) e, (ground arith, k)),
    λ (v, w, e, k).
        let (d', v', f, a, b) = first_same c s v k in
        let g : String.◌∷◌ d t ≡ String.◌∷◌ d' (append v' w) = e ∙ ap (λ x. append x w) f in
        let here : same c d ≡ true = cc in rw here ((start_iff s t).1 (v', w, cc, b)),
  )

  nothing_left : (u x : String) → String.[] ≡ append u x → String.[] ≡ x
  nothing_left String.[] x e = e
  nothing_left (String.◌∷◌ d u) x e = cc

  find_iff :
      (s t : String) → (matches same (any_run ∷ literally s (any_run ∷ [])) t ≡ true) ↔ Contains s t
  unfolding matches StartsWith
  find_iff s String.[] = (
    λ h. let (v, w, e, k) = (start_iff s String.[]).0 h in (String.[], v, w, e, k),
    λ (u, v, w, e, k). (start_iff s String.[]).1 (v, w, nothing_left u (append v w) e, k),
  )
  find_iff s (String.◌∷◌ d t) = (
    λ h. elim (Bool-cases (matches same (literally s (any_run ∷ [])) (String.◌∷◌ d t))) [
      | inl f ↦ let (v, w, e, k) = (start_iff s (String.◌∷◌ d t)).0 f in (String.[], v, w, e, k)
      | inr f ↦
          let (u, v, w, e, k) = (find_iff s t).0 (rw f at h) in
          (String.◌∷◌ d u, v, w, ap (λ x. String.◌∷◌ d x) e, k)
    ],
    λ (u, v, w, e, k). find_back ((find_iff s t).1) u v w e k,
  )
    where
      find_back :
          (Contains s t → matches same (any_run ∷ literally s (any_run ∷ [])) t ≡ true)
          → (u v w : String) → String.◌∷◌ d t ≡ append u (append v w)
          → SameText s v
          → (matches same (literally s (any_run ∷ [])) (String.◌∷◌ d t)
              || matches same (any_run ∷ literally s (any_run ∷ [])) t)
            ≡ true
      find_back ih String.[] v w e k = rw ((start_iff s (String.◌∷◌ d t)).1 (v, w, e, k)) refl
      find_back ih (String.◌∷◌ d' u) v w e k =
          let rest : t ≡ append u (append v w) = cc in
          let found = ih (u, v, w, rest, k) in ground (arith, found)

  -- A text is found by the escaped pattern of another exactly when it contains that text, character by
  -- character under the given comparison: no character of the caller's text acts as a wildcard.
  pub like-pattern_of : (s t : String) → (like same t (pattern_of s) ≡ true) ↔ Contains s t
  unfolding like
  like-pattern_of s t = rw (tokens-pattern_of s) (find_iff s t)
