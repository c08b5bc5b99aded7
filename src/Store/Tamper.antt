-- ===== src/Store/Tamper.antt =====
-- What the head of an audit chain says of the log, up to a collision of the digest.
use mathlib.Core.List.{
  reverse, reverse_aux, reverse-reverse, Mem, mem-cons_self, mem-cons_of_mem, mem-reverse,
}
use mathlib.Core.Path.{ap₂}
use kazutb_siem.Base.{
  ◌⊎◌, inl, inr, text_cases, String, ◌≡◌, refl, sym, ap, ◌∙◌, subst, ◌≢◌, true, some, List, [], ◌∷◌,
  map, arith, eq_iff,
}
use kazutb_siem.Base.Text.{◌<>◌}
use kazutb_siem.Core.{AuditEntry}
use kazutb_siem.Store.Keys.{is_plain, split_at_bar}
use kazutb_siem.Store.Audit.{audit_body, audit_hash, verify_chain, Codec}

-- SHA-256 in hexadecimal digits: a digest has no separator in it and is not empty.
pub record IsDigest (digest : String → String) : Type 0 where
  pub plain : (s : String) → is_plain (digest s) ≡ true
  pub nonempty : (s : String) → digest s ≢ ""

module _ (c : Codec) (d : IsDigest c.sha256_hex) where
  -- What is digested of an entry.
  abbrev pub sealed_text : AuditEntry → String
  sealed_text e = e.previous_hash <> "|" <> audit_body c e

  -- The chain read from its newest entry, which ends at h.
  Back : List AuditEntry → String → Type 0
  Back [] h = h ≡ ""
  Back (e ∷ older) h = (e.hash ≡ h) × (audit_hash c e ≡ e.hash) × Back older e.previous_hash

  Back-verify_chain :
      (p h : String) (xs older : List AuditEntry)
      → verify_chain c p xs ≡ some h
      → Back older p
      → Back (reverse_aux xs older) h
  unfolding verify_chain Back
  Back-verify_chain p h [] older v b = subst (Back older) (ground (arith, v)) b
  Back-verify_chain p h (x ∷ xs) older v b =
      Back-verify_chain x.hash h xs (x ∷ older) (ground (arith, v)) (
        refl,
        ground (arith, v, eq_iff (audit_hash c x) x.hash),
        subst (Back older) (ground (arith, v, eq_iff x.previous_hash p)) b,
      )

  Back-plain : (xs : List AuditEntry) (h : String) → Back xs h → is_plain h ≡ true
  unfolding Back is_plain audit_hash
  Back-plain [] h b = rw b refl
  Back-plain (e ∷ older) h b = rw (← b.0) (rw (← b.1) (d.plain (sealed_text e)))

  Back-nonempty : (e : AuditEntry) (older : List AuditEntry) → Back (e ∷ older) "" → ⊥
  unfolding Back audit_hash
  Back-nonempty e older b = d.nonempty (sealed_text e) (b.1 ∙ b.0)

  -- Two entries, one of each log, whose digested texts differ and have the same digest.
  abbrev Collide : List AuditEntry → List AuditEntry → Type 0
  Collide xs ys =
      (e : AuditEntry) × (f : AuditEntry) × Mem e xs
      × Mem f ys
      × (sealed_text e ≢ sealed_text f)
      × (c.sha256_hex (sealed_text e) ≡ c.sha256_hex (sealed_text f))

  Collide-cons :
      (x y : AuditEntry) (xs ys : List AuditEntry) → Collide xs ys → Collide (x ∷ xs) (y ∷ ys)
  Collide-cons x y xs ys (e, f, in_xs, in_ys, differ, same) =
      (e, f, mem-cons_of_mem x in_xs, mem-cons_of_mem y in_ys, differ, same)

  Back-determined :
      (xs ys : List AuditEntry) (h : String)
      → Back xs h
      → Back ys h
      → (map sealed_text xs ≡ map sealed_text ys) ⊎ Collide xs ys
  unfolding Back audit_hash
  Back-determined [] [] h b k = inl refl
  Back-determined [] (f ∷ ys) h b k = absurd (Back-nonempty f ys (subst (Back (f ∷ ys)) b k))
  Back-determined (e ∷ xs) [] h b k = absurd (Back-nonempty e xs (subst (Back (e ∷ xs)) k b))
  Back-determined (e ∷ xs) (f ∷ ys) h b k =
      let equal = b.1 ∙ b.0 ∙ sym (k.1 ∙ k.0) in
      elim (text_cases (sealed_text e) (sealed_text f)) [
        | inr (differ, _) ↦ inr (e, f, mem-cons_self, mem-cons_self, differ, equal)
        | inl (same, _) ↦
            let before =
              (split_at_bar e.previous_hash f.previous_hash (audit_body c e) (audit_body c f)
                (Back-plain xs e.previous_hash b.2) (Back-plain ys f.previous_hash k.2) same).0 in
            elim (Back-determined xs ys e.previous_hash b.2 (subst (Back ys) (sym before) k.2)) [
              | inl texts ↦ inl (ap₂ ◌∷◌ same texts)
              | inr found ↦ inr (Collide-cons e f xs ys found)
            ]
      ]

map-reverse_aux :
    (f : AuditEntry → String) (xs ys : List AuditEntry)
    → map f (reverse_aux xs ys) ≡ reverse_aux (map f xs) (map f ys)
map-reverse_aux f [] ys = refl
map-reverse_aux f (x ∷ xs) ys = map-reverse_aux f xs (x ∷ ys)

-- Let the digest have no separator in it and never be empty. Two logs that VerifyAudit walks to the
-- same head are then as long as each other, with the same text digested for the entries at each
-- place, or there is a collision of the digest in them: an entry of the one log and one of the
-- other whose digested texts differ and have the same digest. The digested text is the previous
-- hash and the fields of the body, joined by bars.
pub verify_chain-determined :
    (c : Codec) (xs ys : List AuditEntry) {h : String}
    → IsDigest c.sha256_hex
    → verify_chain c "" xs ≡ some h
    → verify_chain c "" ys ≡ some h
    → (map (λ e. e.previous_hash <> "|" <> audit_body c e) xs
        ≡ map (λ e. e.previous_hash <> "|" <> audit_body c e) ys)
      ⊎ ((e : AuditEntry) × (f : AuditEntry) × Mem e xs
          × Mem f ys
          × (e.previous_hash <> "|" <> audit_body c e ≢ f.previous_hash <> "|" <> audit_body c f)
          × (audit_hash c e ≡ audit_hash c f))
unfolding Back audit_hash
verify_chain-determined c xs ys {h} d v w =
    let f = λ (e : AuditEntry). e.previous_hash <> "|" <> audit_body c e in
    elim (Back-determined c d (reverse xs) (reverse ys) h (Back-verify_chain c d "" h xs [] v refl)
      (Back-verify_chain c d "" h ys [] w refl)) [
        | inl same ↦ inl (
            sym (reverse-reverse (map f xs))
            ∙ ap reverse (sym (map-reverse_aux f xs []) ∙ same ∙ map-reverse_aux f ys [])
            ∙ reverse-reverse (map f ys))
        | inr (e, g, in_xs, in_ys, differ, equal) ↦
            inr (e, g, mem-reverse.0 in_xs, mem-reverse.0 in_ys, differ, equal)
      ]
