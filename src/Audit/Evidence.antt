-- ===== src/Audit/Evidence.antt =====
-- What a chain that verifies proves about the log: an anchored prefix cannot be rewritten.
use mathlib.Core.Option.{some-injective}
use legant.Base.{
  ℕ, zero, suc, String, true, List, [], ◌∷◌, some, ◌≡◌, ◌≢◌, ◌⊎◌, inl, inr, sym, ap, ◌∙◌, arith,
  eq_iff, ◌==◌, string_eq, Bool-cases,
}
use legant.Base.Text.{join, text_length, append-injective}
use legant.Audit.{
  Digest, AuditEvent, EventRow, AuditLog, at_anchor, row_text, audit_row_hash, verify,
}
use legant.Audit.Chain.{Linked, verify_iff}

module _ (D : Digest) where
  -- At one of the first places the two logs hash two different texts, and SHA-256 gives one hash.
  abbrev pub Collision : ℕ → List EventRow → List EventRow → Type 0
  Collision zero rows rows' = ⊥
  Collision (suc n) [] rows' = ⊥
  Collision (suc n) (r ∷ rows) [] = ⊥
  Collision (suc n) (r ∷ rows) (r' ∷ rows') =
      ((row_text D r.prev_hash r.event ≢ row_text D r'.prev_hash r'.event)
        × (D.sha256 (row_text D r.prev_hash r.event) ≡ D.sha256 (row_text D r'.prev_hash r'.event)))
      ⊎ Collision n rows rows'

  -- As far as the count goes, row by row, what the two logs hash is one text.
  abbrev pub SameTexts : ℕ → List EventRow → List EventRow → Type 0
  SameTexts zero rows rows' = Unit
  SameTexts (suc n) [] rows' = ⊥
  SameTexts (suc n) (r ∷ rows) [] = ⊥
  SameTexts (suc n) (r ∷ rows) (r' ∷ rows') =
      (row_text D r.prev_hash r.event ≡ row_text D r'.prev_hash r'.event) × SameTexts n rows rows'

  same_or_collision :
      (s t : String) → D.sha256 s ≡ D.sha256 t → (s ≡ t) ⊎ ((s ≢ t) × (D.sha256 s ≡ D.sha256 t))
  same_or_collision s t h = elim (Bool-cases (s == t)) [
    | inl same ↦ inl ((eq_iff s t).0 same)
    | inr other ↦ inr (λ e. ground (arith, eq_iff s t, other, e), h)
  ]

  -- The predecessor's hash stands at the head of the text.
  prev_of_text :
      (p p' : String) (e e' : AuditEvent)
      → text_length p ≡ text_length p'
      → row_text D p e ≡ row_text D p' e'
      → p ≡ p'
  unfolding row_text join
  prev_of_text p p' e e' h same = append-injective p p' _ _ h same

  hash_length :
      (r : EventRow) → r.hash ≡ audit_row_hash D r.prev_hash r.event → text_length r.hash ≡ 64
  unfolding audit_row_hash
  hash_length r h = ap text_length h ∙ D.sha256_length (row_text D r.prev_hash r.event)

  row_same :
      (r r' : EventRow)
      → r.hash ≡ audit_row_hash D r.prev_hash r.event
      → r'.hash ≡ audit_row_hash D r'.prev_hash r'.event
      → r.hash ≡ r'.hash
      → (row_text D r.prev_hash r.event ≡ row_text D r'.prev_hash r'.event)
        ⊎ ((row_text D r.prev_hash r.event ≢ row_text D r'.prev_hash r'.event)
            × (D.sha256 (row_text D r.prev_hash r.event)
                ≡ D.sha256 (row_text D r'.prev_hash r'.event)))
  unfolding audit_row_hash
  row_same r r' h h' same = same_or_collision _ _ (sym h ∙ same ∙ h')

  first :
      (r r' : EventRow) (p p' : String)
      → r.prev_hash ≡ p
      → r'.prev_hash ≡ p'
      → text_length p ≡ text_length p'
      → row_text D r.prev_hash r.event ≡ row_text D r'.prev_hash r'.event
      → p ≡ p'
  first r r' p p' h h' size same =
      sym h
      ∙ prev_of_text r.prev_hash r'.prev_hash r.event r'.event
          (ap text_length h ∙ size ∙ sym (ap text_length h')) same
      ∙ h'

  -- From one hash at the place of an anchor back to the start of the table.
  prefix_same :
      (n : ℕ) (p p' : String) (rows rows' : List EventRow) (head : String)
      → text_length p ≡ text_length p'
      → Linked D p rows
      → Linked D p' rows'
      → at_anchor rows (suc n) ≡ some head
      → at_anchor rows' (suc n) ≡ some head
      → (SameTexts (suc n) rows rows' × (p ≡ p')) ⊎ Collision (suc n) rows rows'
  prefix_same n p p' [] rows' head size l l' a a' = absurd (ground arith)
  prefix_same n p p' (r ∷ rows) [] head size l l' a a' = absurd (ground arith)
  prefix_same zero p p' (r ∷ rows) (r' ∷ rows') head size l l' a a' =
      elim (row_same r r' l.1 l'.1 (some-injective _ _ (a ∙ sym a'))) [
        | inl same ↦ inl ((same, tt), first r r' p p' l.0 l'.0 size same)
        | inr c ↦ inr (inl c)
      ]
  prefix_same (suc n) p p' (r ∷ rows) (r' ∷ rows') head size l l' a a' =
      elim (prefix_same n r.hash r'.hash rows rows' head
        (hash_length r l.1 ∙ sym (hash_length r' l'.1)) l.2 l'.2 a a') [
          | inr c ↦ inr (inr c)
          | inl more ↦ elim (row_same r r' l.1 l'.1 more.1) [
            | inl same ↦ inl ((same, more.0), first r r' p p' l.0 l'.0 size same)
            | inr c ↦ inr (inl c)
          ]
        ]

  -- Two tables that verify from one watermark and share the hash at the place of an anchor hold, up to
  -- there, the same texts, unless at one of these places two different texts have one SHA-256 hash.
  pub anchored_prefix :
      (log log' : AuditLog) (n : ℕ) (head : String)
      → (verify D log).ok ≡ true
      → (verify D log').ok ≡ true
      → log.watermark ≡ log'.watermark
      → at_anchor log.rows (suc n) ≡ some head
      → at_anchor log'.rows (suc n) ≡ some head
      → SameTexts (suc n) log.rows log'.rows ⊎ Collision (suc n) log.rows log'.rows
  anchored_prefix log log' n head good good' same a a' =
      let l = ((verify_iff D log).0 good).0 in
      let l' = ((verify_iff D log').0 good').0 in
      elim (prefix_same n log.watermark log'.watermark log.rows log'.rows head (ap text_length same)
        l l' a a') [ inl p ↦ inl p.0 | inr c ↦ inr c ]
