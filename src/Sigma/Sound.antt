-- ===== src/Sigma/Sound.antt =====
-- The parser against the grammar of conditions, and its fuel.
use mathlib.Core.List.{tail}
use kazutb_siem.Base.{
  subst, ℕ, zero, suc, ◌+◌, ◌*◌, ◌<◌, inl, inr, false, [], arith, Bool-cases, length, String, ◌≡◌,
  true, List, ◌∷◌, has,
}
use kazutb_siem.Sigma.Condition.{Condition, selection, negation, binary}
use kazutb_siem.Sigma.Parser.{
  finish, parse_tokens, or_rest, and_rest, parse_unary, parse_name, close, parse_or, or_rest,
  parse_and, and_rest, parse_unary, peek,
}
use kazutb_siem.Core.{◌>>=◌, Error, Result, out_of_fuel, wrap, ok, err}

-- The grammar: the node is read off the first list of tokens, and the second is left.
module _ (names : List String) where
  mutual
    pub data ReadsOr : Condition → List String → List String → Type 0 where
      one : {c : Condition} {ts rest : List String} → ReadsAnd c ts rest → ReadsOr c ts rest
      either :
          {l r : Condition} {ts us rest : List String}
          → ReadsOr l ts us
          → peek "or" us ≡ true
          → ReadsAnd r (tail us) rest
          → ReadsOr (binary "or" l r) ts rest

    pub data ReadsAnd : Condition → List String → List String → Type 0 where
      unary : {c : Condition} {ts rest : List String} → ReadsUnary c ts rest → ReadsAnd c ts rest
      both :
          {l r : Condition} {ts us rest : List String}
          → ReadsAnd l ts us
          → peek "and" us ≡ true
          → ReadsUnary r (tail us) rest
          → ReadsAnd (binary "and" l r) ts rest

    pub data ReadsUnary : Condition → List String → List String → Type 0 where
      negated :
          {c : Condition} {ts rest : List String}
          → peek "not" ts ≡ true
          → ReadsUnary c (tail ts) rest
          → ReadsUnary (negation c) ts rest
      grouped :
          {c : Condition} {ts us : List String}
          → peek "(" ts ≡ true
          → ReadsOr c (tail ts) us
          → peek ")" us ≡ true
          → ReadsUnary c ts (tail us)
      named :
          {name : String} {rest : List String}
          → has name names ≡ true
          → ReadsUnary (selection name) (name ∷ rest) rest

-- The error is one of the code's, not the model's want of fuel.
abbrev pub IsRefusal : Error → Type 0
IsRefusal out_of_fuel = ⊥
IsRefusal (wrap message e) = IsRefusal e
IsRefusal _ = Unit

-- A value of which P holds, or an error of the code.
abbrev pub Ends {ℓ} : {A : Type ℓ} → (A → Type 0) → Result A → Type 0
Ends P (ok a) = P a
Ends P (err e) = IsRefusal e

Ends-bind {ℓ κ} :
    {A : Type ℓ} {B : Type κ} (Before : A → Type 0) (After : B → Type 0) (first : Result A)
    (onward : A → Result B)
    → Ends Before first
    → ((x : A) → Before x → Ends After (onward x))
    → Ends After (first >>= onward)
Ends-bind Before After (ok a) f h k = k a h
Ends-bind Before After (err e) f h k = h

length-tail :
    (value : String) (ts : List String) → peek value ts ≡ true → length (tail ts) < length ts
unfolding peek
length-tail value [] h = absurd (ground (arith, h))
length-tail value (t ∷ ts) h = omega arith

module _ (names : List String) where
  -- What a method of the parser leaves, if it reads at least one token, or perhaps none.
  abbrev Shorter :
      (Condition → List String → List String → Type 0)
      → List String
      → ℕ
      → Condition × List String
      → Type 0
  Shorter Reads ts n (c, rest) = Reads c ts rest × (length rest < n)

  parse_name-Ends :
      (ts : List String)
      → peek "not" ts ≡ false
      → peek "(" ts ≡ false
      → Ends (Shorter (ReadsUnary names) ts (length ts)) (parse_name names ts)
  unfolding parse_name
  parse_name-Ends [] h k = tt
  parse_name-Ends (name ∷ rest) h k = elim (Bool-cases (has name names)) [
    | inl known ↦ rw known (named known, omega arith)
    | inr unknown ↦ rw unknown tt
  ]

  close-Ends :
      (c : Condition) (ts us : List String)
      → peek "(" ts ≡ true
      → ReadsOr names c (tail ts) us
      → length us < length ts
      → Ends (Shorter (ReadsUnary names) ts (length ts)) (close c us)
  unfolding close
  close-Ends c ts us opened inner shorter = elim (Bool-cases (peek ")" us)) [
    | inl closed ↦ rw closed (grouped opened inner closed, omega (arith, length-tail ")" us closed))
    | inr unclosed ↦ rw unclosed tt
  ]

  mutual
    unfolding parse_or

    parse_or-Ends :
        (f : ℕ) (ts : List String)
        → 3 * length ts + 2 < f
        → Ends (Shorter (ReadsOr names) ts (length ts)) (parse_or names f ts)
    parse_or-Ends zero ts h = absurd (omega arith)
    parse_or-Ends (suc f) ts h =
        Ends-bind (Shorter (ReadsAnd names) ts (length ts)) _ (parse_and names f ts) _
          (parse_and-Ends f ts (omega arith))
          (λ (left, rest) read.
            or_rest-Ends f left ts rest (one read.0) read.1 (omega (arith, read.1)))

    or_rest-Ends :
        (f : ℕ) (left : Condition) (ts us : List String)
        → ReadsOr names left ts us
        → length us < length ts
        → 3 * length us < f
        → Ends (Shorter (ReadsOr names) ts (length ts)) (or_rest names f left us)
    or_rest-Ends zero left ts us read shorter h = absurd (omega arith)
    or_rest-Ends (suc f) left ts us read shorter h = elim (Bool-cases (peek "or" us)) [
      | inl more ↦
          rw (more, or_rest)
            (Ends-bind (Shorter (ReadsAnd names) (tail us) (length (tail us))) _
              (parse_and names f (tail us)) _
              (parse_and-Ends f (tail us) (omega (arith, length-tail "or" us more)))
              (λ (right, rest) next.
                or_rest-Ends f (binary "or" left right) ts rest (either read more next.0)
                  (omega (arith, next.1, length-tail "or" us more))
                  (omega (arith, next.1, length-tail "or" us more))))
      | inr done ↦ rw (done, or_rest) (read, shorter)
    ]

    parse_and-Ends :
        (f : ℕ) (ts : List String)
        → 3 * length ts + 1 < f
        → Ends (Shorter (ReadsAnd names) ts (length ts)) (parse_and names f ts)
    parse_and-Ends zero ts h = absurd (omega arith)
    parse_and-Ends (suc f) ts h =
        Ends-bind (Shorter (ReadsUnary names) ts (length ts)) _ (parse_unary names f ts) _
          (parse_unary-Ends f ts (omega arith))
          (λ (left, rest) read.
            and_rest-Ends f left ts rest (unary read.0) read.1 (omega (arith, read.1)))

    and_rest-Ends :
        (f : ℕ) (left : Condition) (ts us : List String)
        → ReadsAnd names left ts us
        → length us < length ts
        → 3 * length us < f
        → Ends (Shorter (ReadsAnd names) ts (length ts)) (and_rest names f left us)
    and_rest-Ends zero left ts us read shorter h = absurd (omega arith)
    and_rest-Ends (suc f) left ts us read shorter h = elim (Bool-cases (peek "and" us)) [
      | inl more ↦
          rw (more, and_rest)
            (Ends-bind (Shorter (ReadsUnary names) (tail us) (length (tail us))) _
              (parse_unary names f (tail us)) _
              (parse_unary-Ends f (tail us) (omega (arith, length-tail "and" us more)))
              (λ (right, rest) next.
                and_rest-Ends f (binary "and" left right) ts rest (both read more next.0)
                  (omega (arith, next.1, length-tail "and" us more))
                  (omega (arith, next.1, length-tail "and" us more))))
      | inr done ↦ rw (done, and_rest) (read, shorter)
    ]

    parse_unary-Ends :
        (f : ℕ) (ts : List String)
        → 3 * length ts < f
        → Ends (Shorter (ReadsUnary names) ts (length ts)) (parse_unary names f ts)
    parse_unary-Ends zero ts h = absurd (omega arith)
    parse_unary-Ends (suc f) ts h = elim (Bool-cases (peek "not" ts)) [
      | inl no_sign ↦
          rw (no_sign, parse_unary)
            (Ends-bind (Shorter (ReadsUnary names) (tail ts) (length (tail ts))) _
              (parse_unary names f (tail ts)) _
              (parse_unary-Ends f (tail ts) (omega (arith, length-tail "not" ts no_sign)))
              (λ (child, rest) read.
                (negated no_sign read.0, omega (arith, read.1, length-tail "not" ts no_sign))))
      | inr plain ↦ elim (Bool-cases (peek "(" ts)) [
        | inl opened ↦
            rw (plain, opened, parse_unary)
              (Ends-bind (Shorter (ReadsOr names) (tail ts) (length (tail ts))) _
                (parse_or names f (tail ts)) _
                (parse_or-Ends f (tail ts) (omega (arith, length-tail "(" ts opened)))
                (λ (node, rest) read.
                  close-Ends node ts rest opened read.0
                    (omega (arith, read.1, length-tail "(" ts opened))))
        | inr bare ↦ rw (plain, bare, parse_unary) (parse_name-Ends ts plain bare)
      ]
    ]

  -- Parsing ends with the reading of all tokens by the grammar, or with an error of the code: the
  -- fuel is enough for every input.
  pub parse_tokens-Ends :
      (ts : List String) → Ends (λ c. ReadsOr names c ts []) (parse_tokens names ts)
  unfolding parse_tokens finish
  parse_tokens-Ends [] = tt
  parse_tokens-Ends (t ∷ ts) =
      Ends-bind (Shorter (ReadsOr names) (t ∷ ts) (length (t ∷ ts))) _
        (parse_or names (3 * length (t ∷ ts) + 3) (t ∷ ts)) finish
        (parse_or-Ends (3 * length (t ∷ ts) + 3) (t ∷ ts) (omega arith))
        (λ (c, rest) read. all_read c rest read.0)
    where
      all_read :
          (c : Condition) (rest : List String)
          → ReadsOr names c (t ∷ ts) rest
          → Ends (λ node. ReadsOr names node (t ∷ ts) []) (finish (c, rest))
      all_read c [] read = read
      all_read c (u ∷ us) read = tt

  -- The node refers to known selections only.
  abbrev pub Refers : Condition → Type 0
  Refers (selection name) = has name names ≡ true
  Refers (negation child) = Refers child
  Refers (binary operator left right) = Refers left × Refers right

  mutual
    ReadsOr-Refers : {c : Condition} {ts rest : List String} → ReadsOr names c ts rest → Refers c
    ReadsOr-Refers (one a) = ReadsAnd-Refers a
    ReadsOr-Refers (either a e b) = (ReadsOr-Refers a, ReadsAnd-Refers b)

    ReadsAnd-Refers : {c : Condition} {ts rest : List String} → ReadsAnd names c ts rest → Refers c
    ReadsAnd-Refers (unary a) = ReadsUnary-Refers a
    ReadsAnd-Refers (both a e b) = (ReadsAnd-Refers a, ReadsUnary-Refers b)

    ReadsUnary-Refers :
        {c : Condition} {ts rest : List String} → ReadsUnary names c ts rest → Refers c
    ReadsUnary-Refers (negated e a) = ReadsUnary-Refers a
    ReadsUnary-Refers (grouped e a f) = ReadsOr-Refers a
    ReadsUnary-Refers (named known) = known

  -- A condition that parses refers to selections of the rule only.
  pub parse_tokens-Refers :
      (ts : List String) (c : Condition) → parse_tokens names ts ≡ ok c → Refers c
  parse_tokens-Refers ts c e =
      ReadsOr-Refers (subst (Ends (λ node. ReadsOr names node ts [])) e (parse_tokens-Ends ts))
