-- ===== src/Audit/Prune.antt =====
-- Retention over the chain: what it keeps verifiable, and where an anchor stands in the way.
use mathlib.Core.Path.{subst}
use legant.Base.{
  ℕ, ◌≤◌, ◌<◌, String, true, false, List, [], ◌∷◌, ◌≡◌, refl, length, arith, Bool-cases, inl, inr,
  keep, if◌then◌else◌,
}
use legant.Audit.{
  Digest, EventRow, AnchorRow, AuditLog, verify, first_prev, is_kept, deletes_some,
  prune_audit_chained,
}
use legant.Audit.Chain.{Linked, Anchored, verify_iff}

-- The rows are in the order of their instants too, from `t` on.
abbrev pub Timely : ℕ → List EventRow → Type 0
Timely t [] = Unit
Timely t (r ∷ rows) = (t ≤ r.event.created_at) × Timely r.event.created_at rows

keep-Timely :
    (cutoff t : ℕ) (rows : List EventRow)
    → cutoff ≤ t
    → Timely t rows
    → (keep (is_kept cutoff) rows ≡ rows) × (deletes_some cutoff rows ≡ false)
unfolding keep
keep-Timely cutoff t [] le h = (refl, refl)
keep-Timely cutoff t (r ∷ rows) le h =
    let (same, none_deleted) =
      keep-Timely cutoff r.event.created_at rows (omega (arith, h.0)) h.1 in
    let kept : is_kept cutoff r ≡ true = ground (arith, h.0) in
    (rw (kept, same) refl, rw kept none_deleted)

module _ (D : Digest) where
  kept-Linked :
      (cutoff t : ℕ) (prev : String) (rows : List EventRow)
      → Timely t rows
      → Linked D prev rows
      → Linked D
          (if deletes_some cutoff rows then first_prev (keep (is_kept cutoff) rows) else prev)
          (keep (is_kept cutoff) rows)
  unfolding keep
  kept-Linked cutoff t prev [] h l = tt
  kept-Linked cutoff t prev (r ∷ rows) h l = elim (Bool-cases (is_kept cutoff r)) [
    | inl kept ↦
        let (same, none_deleted) =
          keep-Timely cutoff r.event.created_at rows (ground (arith, kept)) h.1 in
        rw (kept, none_deleted, same) l
    | inr gone ↦ rw gone (restart _ _ (kept-Linked cutoff r.event.created_at r.hash rows h.1 l.2))
  ]
    where
      restart :
          (w : String) (kept : List EventRow) → Linked D w kept → Linked D (first_prev kept) kept
      restart w [] k = tt
      restart w (x ∷ kept) k = (refl, k.1, k.2)

  -- Retention keeps a log verifiable that was never anchored and whose events were created in the order
  -- in which they were chained.
  pub prune_audit_chained-verify :
      (cutoff : ℕ) (log : AuditLog)
      → log.anchors ≡ []
      → Timely 0 log.rows
      → (verify D log).ok ≡ true
      → (verify D (prune_audit_chained cutoff log)).ok ≡ true
  unfolding prune_audit_chained
  prune_audit_chained-verify cutoff log bare timely good =
      (verify_iff D (prune_audit_chained cutoff log)).1 (
        kept-Linked cutoff 0 log.watermark log.rows timely ((verify_iff D log).0 good).0,
        rw bare tt,
      )

  -- After an anchor was taken, retention that leaves fewer rows than it counts makes the verification
  -- fail, although nobody tampered with the log.
  pub prune_audit_chained-anchored :
      (cutoff : ℕ) (log : AuditLog) (a : AnchorRow) (anchors : List AnchorRow)
      → log.anchors ≡ a ∷ anchors
      → length (keep (is_kept cutoff) log.rows) < a.event_count
      → (verify D (prune_audit_chained cutoff log)).ok ≡ false
  unfolding prune_audit_chained
  prune_audit_chained-anchored cutoff log a anchors has fewer =
      elim (Bool-cases (verify D (prune_audit_chained cutoff log)).ok) [
        | inr bad ↦ bad
        | inl good ↦
            let held =
              subst (λ k. Anchored D k (keep (is_kept cutoff) log.rows)) has
                ((verify_iff D (prune_audit_chained cutoff log)).0 good).1 in
            absurd (ground (arith, held.0))
      ]
