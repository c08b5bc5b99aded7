-- ===== src/Sigma/RoundTrip.antt =====
-- A condition, written with all its parentheses, is parsed back.
use mathlib.Core.List.{append_assoc, append-nil}
use kazutb_siem.Base.{
  sym, ap, ◌∙◌, subst, inl, inr, ℕ, zero, suc, ◌+◌, ◌*◌, ◌<◌, String, ◌≡◌, refl, ◌⊎◌, true, false,
  List, [], ◌∷◌, ◌++◌, arith, length, length-append, has,
}
use kazutb_siem.Base.Text.{equal_fold}
use kazutb_siem.Core.{◌>>=◌, ok}
use kazutb_siem.Sigma.Condition.{Condition, selection, negation, binary}
use kazutb_siem.Sigma.Parser.{finish, peek, parse_name, close, parse_or, parse_unary, parse_tokens}

-- The tokens of a condition, each binary node in parentheses.
unfoldable pub emit : Condition → List String
emit (selection name) = name ∷ []
emit (negation child) = "not" ∷ emit child
emit (binary operator left right) = "(" ∷ (emit left ++ operator ∷ (emit right ++ ")" ∷ []))

-- The operators are those of the language, and the selections are known and no keywords.
abbrev pub IsWritten : List String → Condition → Type 0
IsWritten names (selection name) =
    (has name names ≡ true) × (equal_fold name "not" ≡ false) × (equal_fold name "(" ≡ false)
IsWritten names (negation child) = IsWritten names child
IsWritten names (binary operator left right) =
    ((operator ≡ "and") ⊎ (operator ≡ "or")) × IsWritten names left × IsWritten names right

module _ (names : List String) where
  -- Two operands and the conjunction between them.
  parse_or-and :
      (f : ℕ) (l r : Condition) (ts us rest : List String)
      → parse_unary names (suc (suc f)) ts ≡ ok (l, "and" ∷ us)
      → parse_unary names (suc f) us ≡ ok (r, ")" ∷ rest)
      → parse_or names (suc (suc (suc (suc f)))) ts ≡ ok (binary "and" l r, ")" ∷ rest)
  unfolding parse_or peek equal_fold
  parse_or-and f l r ts us rest left right = rw (left, right) refl

  parse_or-or :
      (f : ℕ) (l r : Condition) (ts us rest : List String)
      → parse_unary names (suc (suc f)) ts ≡ ok (l, "or" ∷ us)
      → parse_unary names (suc f) us ≡ ok (r, ")" ∷ rest)
      → parse_or names (suc (suc (suc (suc f)))) ts ≡ ok (binary "or" l r, ")" ∷ rest)
  unfolding parse_or peek equal_fold
  parse_or-or f l r ts us rest left right = rw (left, right) refl

  parse_unary-group :
      (f : ℕ) (c : Condition) (ts rest : List String)
      → parse_or names f ts ≡ ok (c, ")" ∷ rest)
      → parse_unary names (suc f) ("(" ∷ ts) ≡ ok (c, rest)
  unfolding parse_or peek equal_fold close
  parse_unary-group f c ts rest e = rw e refl

  -- The tokens of a binary node and what follows, without the inner append.
  emit-binary :
      (operator : String) (l r : Condition) (rest : List String)
      → emit (binary operator l r) ++ rest ≡ "(" ∷ (emit l ++ operator ∷ (emit r ++ ")" ∷ rest))
  unfolding emit
  emit-binary operator l r rest = simp append_assoc

  length-emit_binary :
      (operator : String) (l r : Condition)
      → length (emit (binary operator l r)) ≡ length (emit l) + length (emit r) + 3
  unfolding emit
  length-emit_binary operator l r = omega (
    arith,
    length-append (emit l) (operator ∷ (emit r ++ ")" ∷ [])),
    length-append (emit r) (")" ∷ []),
  )

  -- With fuel above the bound, the tokens of the condition are read, whatever follows.
  abbrev IsRead : Condition → Type 0
  IsRead c =
      (rest : List String) (f : ℕ)
      → 3 * length (emit c) < f
      → parse_unary names f (emit c ++ rest) ≡ ok (c, rest)

  binary-IsRead :
      (operator : String) (l r : Condition)
      → (operator ≡ "and") ⊎ (operator ≡ "or")
      → IsRead l
      → IsRead r
      → IsRead (binary operator l r)
  binary-IsRead operator l r op hl hr rest (suc (suc (suc (suc (suc f))))) h =
      let size = length-emit_binary operator l r in
      let left = hl (operator ∷ (emit r ++ ")" ∷ rest)) (suc (suc f)) (omega (arith, size)) in
      let right = hr (")" ∷ rest) (suc f) (omega (arith, size)) in
      let group =
        parse_unary-group (suc (suc (suc (suc f)))) (binary operator l r)
          (emit l ++ operator ∷ (emit r ++ ")" ∷ rest)) rest in
      rw (emit-binary operator l r rest) (elim op [
        | inl e ↦ group (
            subst
              (λ o.
                parse_or names (suc (suc (suc (suc f)))) (emit l ++ o ∷ (emit r ++ ")" ∷ rest))
                ≡ ok (binary o l r, ")" ∷ rest))
              (sym e)
              (parse_or-and f l r _ _ rest
                (subst
                  (λ o.
                    parse_unary names (suc (suc f)) (emit l ++ o ∷ (emit r ++ ")" ∷ rest))
                    ≡ ok (l, o ∷ (emit r ++ ")" ∷ rest)))
                  e left)
                right))
        | inr e ↦ group (
            subst
              (λ o.
                parse_or names (suc (suc (suc (suc f)))) (emit l ++ o ∷ (emit r ++ ")" ∷ rest))
                ≡ ok (binary o l r, ")" ∷ rest))
              (sym e)
              (parse_or-or f l r _ _ rest
                (subst
                  (λ o.
                    parse_unary names (suc (suc f)) (emit l ++ o ∷ (emit r ++ ")" ∷ rest))
                    ≡ ok (l, o ∷ (emit r ++ ")" ∷ rest)))
                  e left)
                right))
      ])
  binary-IsRead operator l r op hl hr rest f h =
      absurd (omega (arith, length-emit_binary operator l r))

  parse_unary-emit : (c : Condition) → IsWritten names c → IsRead c
  unfolding parse_or peek parse_name emit
  parse_unary-emit c w rest zero h = absurd (omega arith)
  parse_unary-emit (selection name) w rest (suc f) h = ground (arith, w.0, w.1, w.2)
  parse_unary-emit (negation child) w rest (suc f) h =
      rw (parse_unary-emit child w rest f (omega arith)) refl
  parse_unary-emit (binary operator l r) w rest (suc f) h =
      binary-IsRead operator l r w.0 (parse_unary-emit l w.1) (parse_unary-emit r w.2) rest (suc f)
        h

  parse_or-unary :
      (f : ℕ) (c : Condition) (ts : List String)
      → parse_unary names (suc f) ts ≡ ok (c, [])
      → parse_or names (suc (suc (suc f))) ts ≡ ok (c, [])
  unfolding parse_or peek
  parse_or-unary f c ts e = rw e refl

  parse_tokens_lem :
      (ts : List String)
      → 0 < length ts
      → parse_tokens names ts ≡ (parse_or names (3 * length ts + 3) ts >>= finish)
  unfolding parse_tokens
  parse_tokens_lem [] h = absurd (omega arith)
  parse_tokens_lem (t ∷ ts) h = refl

  length-emit_pos : (c : Condition) → 0 < length (emit c)
  unfolding emit
  length-emit_pos (selection name) = omega arith
  length-emit_pos (negation child) = omega arith
  length-emit_pos (binary operator l r) = omega arith

  -- Parsing the tokens of a condition gives that condition, if its operators are `and` and `or` and
  -- its selections are known and spelled neither `not` nor `(`.
  pub parse_tokens-emit : (c : Condition) → IsWritten names c → parse_tokens names (emit c) ≡ ok c
  unfolding finish
  parse_tokens-emit c w =
      let whole = parse_unary-emit c w [] (suc (3 * length (emit c))) (omega arith) in
      let read = parse_or-unary (3 * length (emit c)) c (emit c) (
        subst (λ ts. parse_unary names (suc (3 * length (emit c))) ts ≡ ok (c, []))
          (append-nil (emit c)) whole) in
      parse_tokens_lem (emit c) (length-emit_pos c)
      ∙ ap (λ r. r >>= finish)
          (subst (λ n. parse_or names n (emit c) ≡ ok (c, [])) (omega arith) read)
