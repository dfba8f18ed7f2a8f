-- ===== src/Audit/Chain.antt =====
-- The verification of the chain passes exactly for a table whose rows are linked and hashed.
use mathlib.Core.Option.{some-injective}
use native.Mathlib.Nat.{zero-add}
use legant.Base.{
  ℕ, ◌+◌, ltb, String, Bool, true, false, not, List, [], ◌∷◌, Option, none, some, string_eq, nat_eq,
  ◌≡◌, ◌↔◌, refl, sym, ap, ◌∙◌, if◌then◌else◌, length, is_empty, arith, eq_iff, Bool-cases, inl,
  inr,
}
use legant.Audit.{
  Digest, EventRow, AnchorRow, AuditLog, VerifyResult, nothing_seen, at_anchor, last_hash,
  found_prefix, against, against_latest, audit_row_hash, check_row, scan, verify,
}

module _ (D : Digest) where
  -- Each row carries the hash of the one before it, and the hash of its own fields.
  abbrev pub Linked : String → List EventRow → Type 0
  Linked prev [] = Unit
  Linked prev (r ∷ rows) =
      (r.prev_hash ≡ prev) × (r.hash ≡ audit_row_hash D r.prev_hash r.event) × Linked r.hash rows

  -- The scan counts the rows and ends at the last, whatever it finds.
  pub scan_events :
      (prev : String) (rows : List EventRow) (res : VerifyResult)
      → (scan D prev rows res).events ≡ res.events + length rows
  unfolding scan check_row
  scan_events prev [] res = omega arith
  scan_events prev (r ∷ rows) res = ground (arith, scan_events r.hash rows (check_row D prev r res))

  pub scan_head :
      (prev : String) (rows : List EventRow) (res : VerifyResult)
      → res.head_hash ≡ prev
      → (scan D prev rows res).head_hash ≡ last_hash prev rows
  unfolding scan check_row
  scan_head prev [] res h = h
  scan_head prev (r ∷ rows) res h = scan_head r.hash rows (check_row D prev r res) (ground arith)

  pub scan_last :
      (prev : String) (rows : List EventRow) (res : VerifyResult)
      → is_empty rows ≡ false
      → (scan D prev rows res).head_hash ≡ last_hash prev rows
  unfolding scan check_row
  scan_last prev [] res h = absurd (ground arith)
  scan_last prev (r ∷ rows) res h = scan_head r.hash rows (check_row D prev r res) (ground arith)

  -- A failed scan stays failed.
  scan_failed :
      (prev : String) (rows : List EventRow) (res : VerifyResult)
      → res.ok ≡ false
      → (scan D prev rows res).ok ≡ false
  unfolding scan check_row
  scan_failed prev [] res h = h
  scan_failed prev (r ∷ rows) res h =
      scan_failed r.hash rows (check_row D prev r res) (ground arith)

  scan-Linked :
      (prev : String) (rows : List EventRow) (res : VerifyResult)
      → res.ok ≡ true
      → Linked prev rows
      → (scan D prev rows res).ok ≡ true
  unfolding scan check_row
  scan-Linked prev [] res h k = h
  scan-Linked prev (r ∷ rows) res h k =
      scan-Linked r.hash rows (check_row D prev r res)
        (ground (
          arith,
          eq_iff r.prev_hash prev,
          eq_iff r.hash (audit_row_hash D r.prev_hash r.event),
          h,
          k.0,
          k.1,
        ))
        k.2

  check_row-inv :
      (prev : String) (r : EventRow) (res : VerifyResult)
      → (check_row D prev r res).ok ≡ true
      → (r.prev_hash ≡ prev) × (r.hash ≡ audit_row_hash D r.prev_hash r.event)
  unfolding check_row
  check_row-inv prev r res h =
      ground
        (arith, eq_iff r.prev_hash prev, eq_iff r.hash (audit_row_hash D r.prev_hash r.event), h)

  Linked-scan :
      (prev : String) (rows : List EventRow) (res : VerifyResult)
      → (scan D prev rows res).ok ≡ true
      → Linked prev rows
  unfolding scan
  Linked-scan prev [] res h = tt
  Linked-scan prev (r ∷ rows) res h = elim (Bool-cases (check_row D prev r res).ok) [
    | inl good ↦
        let (before, own) = check_row-inv prev r res good in
        (before, own, Linked-scan r.hash rows (check_row D prev r res) h)
    | inr bad ↦ absurd (clash (sym (scan_failed r.hash rows (check_row D prev r res) bad) ∙ h))
  ]
    where
      clash : false ≡ true → ⊥
      clash e = cc e

  -- The latest anchor still holds: there are as many rows, and the row at its place has its hash.
  abbrev pub Anchored : List AnchorRow → List EventRow → Type 0
  Anchored [] rows = Unit
  Anchored (a ∷ anchors) rows =
      (ltb (length rows) a.event_count ≡ false)
      × ((h : String) → at_anchor rows a.event_count ≡ some h → h ≡ a.head_hash)

  found_prefix_iff :
      (o : Option String) (head : String) (res : VerifyResult)
      → res.ok ≡ true
      → ((found_prefix o head res).ok ≡ true) ↔ ((h : String) → o ≡ some h → h ≡ head)
  found_prefix_iff none head res good = (λ _ h e. cc e, λ _. good)
  found_prefix_iff (some x) head res good = (
    λ k h e. sym (some-injective x h e) ∙ ground (arith, eq_iff x head, k),
    λ k. ground (arith, eq_iff x head, k x refl, good),
  )

  against_iff :
      (rows : List EventRow) (count : ℕ) (head : String) (res : VerifyResult)
      → res.ok ≡ true
      → ((against rows count head res).ok ≡ true) ↔ (
          (ltb res.events count ≡ false)
          × ((h : String) → at_anchor rows count ≡ some h → h ≡ head))
  against_iff rows count head res good = elim (Bool-cases (ltb res.events count)) [
    | inl fewer ↦ (λ k. absurd (no (rw fewer at k)), λ k. absurd (no (sym k.0 ∙ fewer)))
    | inr enough ↦
        let (to, from) = found_prefix_iff (at_anchor rows count) head res good in
        (λ k. (enough, to (rw enough at k)), λ k. rw enough (from k.1))
  ]
    where
      no : false ≡ true → ⊥
      no e = cc e

  latest_iff :
      (anchors : List AnchorRow) (rows : List EventRow) (res : VerifyResult)
      → res.ok ≡ true
      → res.events ≡ length rows
      → ((against_latest anchors rows res).ok ≡ true) ↔ Anchored anchors rows
  latest_iff [] rows res good n = (λ _. tt, λ _. good)
  latest_iff (a ∷ anchors) rows res good n =
      let (to, from) = against_iff rows a.event_count a.head_hash res good in
      let same = ap (λ k. ltb k a.event_count) n in
      (λ k. (sym same ∙ (to k).0, (to k).1), λ k. from (same ∙ k.0, k.1))

  on_true : (b : Bool) (x y : VerifyResult) → b ≡ true → (if not b then x else y) ≡ y
  on_true true x y h = refl
  on_true false x y h = absurd (ground arith)

  on_false : (b : Bool) (x y : VerifyResult) → b ≡ false → (if not b then x else y) ≡ x
  on_false true x y h = absurd (ground arith)
  on_false false x y h = refl

  found_prefix_head :
      (o : Option String) (head : String) (res : VerifyResult)
      → ((found_prefix o head res).events ≡ res.events)
        × ((found_prefix o head res).head_hash ≡ res.head_hash)
  found_prefix_head none head res = (refl, refl)
  found_prefix_head (some h) head res = (ground arith, ground arith)

  against_head :
      (rows : List EventRow) (count : ℕ) (head : String) (res : VerifyResult)
      → ((against rows count head res).events ≡ res.events)
        × ((against rows count head res).head_hash ≡ res.head_hash)
  against_head rows count head res =
      let (n, h) = found_prefix_head (at_anchor rows count) head res in
      (ground (arith, n), ground (arith, h))

  latest_head :
      (anchors : List AnchorRow) (rows : List EventRow) (res : VerifyResult)
      → ((against_latest anchors rows res).events ≡ res.events)
        × ((against_latest anchors rows res).head_hash ≡ res.head_hash)
  latest_head [] rows res = (refl, refl)
  latest_head (a ∷ anchors) rows res = against_head rows a.event_count a.head_hash res

  -- The verification reports the number of rows and the hash of the last one.
  pub verify_head :
      (log : AuditLog)
      → ((verify D log).events ≡ length log.rows)
        × (is_empty log.rows ≡ false → (verify D log).head_hash ≡ last_hash log.watermark log.rows)
  unfolding verify
  verify_head log =
      let res = scan D log.watermark log.rows nothing_seen in
      let (n, h) = latest_head log.anchors log.rows res in
      let count = scan_events log.watermark log.rows nothing_seen ∙ zero-add (length log.rows) in
      (
        ground (arith, n, count),
        λ full. ground (arith, h, scan_last log.watermark log.rows nothing_seen full),
      )

  -- The verification passes exactly where every row is linked to the one before it and carries the
  -- hash of its own fields, from the watermark on, and the latest anchor still holds.
  pub verify_iff :
      (log : AuditLog)
      → ((verify D log).ok ≡ true) ↔ (Linked log.watermark log.rows × Anchored log.anchors log.rows)
  unfolding verify
  verify_iff log = elim (Bool-cases res.ok) [
    | inl good ↦
        let (to, from) = latest_iff log.anchors log.rows res good count in
        let chosen =
          ap (λ (r : VerifyResult). r.ok)
            (on_true res.ok res (against_latest log.anchors log.rows res) good) in
        (
          λ k. (Linked-scan log.watermark log.rows nothing_seen good, to (sym chosen ∙ k)),
          λ k. chosen ∙ from k.1,
        )
    | inr bad ↦
        let chosen =
          ap (λ (r : VerifyResult). r.ok)
            (on_false res.ok res (against_latest log.anchors log.rows res) bad) in
        (
          λ k. absurd (no (sym bad ∙ sym chosen ∙ k)),
          λ k. absurd (no (sym bad ∙ scan-Linked log.watermark log.rows nothing_seen refl k.0)),
        )
  ]
    where
      res : VerifyResult
      res = scan D log.watermark log.rows nothing_seen

      no : false ≡ true → ⊥
      no e = cc e

      count : res.events ≡ length log.rows
      count = scan_events log.watermark log.rows nothing_seen ∙ zero-add (length log.rows)
