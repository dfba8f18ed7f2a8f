-- ===== src/Audit/Append.antt =====
-- Writing to the log and anchoring it: a table that verifies goes on verifying, and an anchor pins
-- what stands before it.
use mathlib.Core.Path.{subst}
use legant.Base.{
  ℕ, zero, suc, ◌-◌, ◌≤◌, ◌<◌, ltb, String, true, false, not, List, [], ◌∷◌, ◌++◌, some, ◌≡◌, ◌⊎◌,
  inl, inr, refl, sym, ap, ◌∙◌, length, arith, Bool-cases, is_empty, ◌==◌, nat_eq, if◌then◌else◌,
}
use legant.Base.Result.{Result, ok, err, ok-injective}
use legant.Audit.{
  Digest, AuditEvent, EventRow, AnchorRow, AuditLog, AuditError, broken_chain, VerifyResult,
  at_anchor, last_hash, audit_row_hash, append_event, verify, anchor,
}
use legant.Audit.Chain.{Linked, Anchored, verify_head, verify_iff}
use legant.Audit.Evidence.{Collision, SameTexts, anchored_prefix}

last_hash_any :
    (p q : String) (rows : List EventRow)
    → is_empty rows ≡ false
    → last_hash p rows ≡ last_hash q rows
last_hash_any p q [] h = absurd (ground arith)
last_hash_any p q (r ∷ rows) h = refl

at_anchor-append :
    (rows : List EventRow) (x : EventRow) (count : ℕ)
    → ltb (length rows) count ≡ false
    → at_anchor (rows ++ x ∷ []) count ≡ at_anchor rows count
at_anchor-append rows x zero h = refl
at_anchor-append [] x (suc n) h = absurd (ground arith)
at_anchor-append (r ∷ rows) x (suc zero) h = refl
at_anchor-append (r ∷ rows) x (suc (suc n)) h = at_anchor-append rows x (suc n) (ground arith)

length-snoc : (rows : List EventRow) (x : EventRow) → length (rows ++ x ∷ []) ≡ suc (length rows)
length-snoc [] x = refl
length-snoc (r ∷ rows) x = ap suc (length-snoc rows x)

at_anchor-last :
    (p : String) (rows : List EventRow) (n : ℕ)
    → length rows ≡ suc n
    → at_anchor rows (suc n) ≡ some (last_hash p rows)
at_anchor-last p [] n h = absurd (omega (arith, h))
at_anchor-last p (r ∷ []) zero h = refl
at_anchor-last p (r ∷ []) (suc n) h = absurd (omega (arith, h))
at_anchor-last p (r ∷ s ∷ rows) zero h = absurd (omega (arith, h))
at_anchor-last p (r ∷ s ∷ rows) (suc n) h = at_anchor-last r.hash (s ∷ rows) n (omega (arith, h))

at_anchor-some :
    (rows : List EventRow) (n : ℕ)
    → n < length rows
    → (h : String) × (at_anchor rows (suc n) ≡ some h)
at_anchor-some [] n h = absurd (omega (arith, h))
at_anchor-some (r ∷ rows) zero h = (r.hash, refl)
at_anchor-some (r ∷ rows) (suc n) h = at_anchor-some rows n (omega (arith, h))

at_least : (rows : List EventRow) → is_empty rows ≡ false → length rows ≡ suc (length rows - 1)
at_least [] h = absurd (ground arith)
at_least (r ∷ rows) h = omega arith

entry :
    (n m : ℕ) (h k : String) (seq : ℕ) (rest : List AnchorRow)
    → n ≡ m
    → h ≡ k
    → record { event_count = n; head_hash = h; head_seq = seq } ∷ rest
      ≡ record { event_count = m; head_hash = k; head_seq = seq } ∷ rest
entry n m h k seq rest e f = rw (e, f)

abbrev anchored_with : VerifyResult → AuditLog → Result AuditError AuditLog
anchored_with res log =
    if not res.ok
    then err broken_chain
    else if res.events == 0
    then ok log
    else ok (record log {
      anchors =
          record { event_count = res.events; head_hash = res.head_hash; head_seq = res.head_seq }
          ∷ log.anchors;
    })

taken :
    (res : VerifyResult) (log : AuditLog)
    → res.ok ≡ true
    → (n : ℕ) → res.events ≡ suc n
    → anchored_with res log
      ≡ ok (record log {
        anchors =
            record { event_count = res.events; head_hash = res.head_hash; head_seq = res.head_seq }
            ∷ log.anchors;
      })
taken res log good n full = ground arith

stored :
    (res : VerifyResult) (log log' : AuditLog)
    → res.ok ≡ true
    → (n : ℕ) → res.events ≡ suc n
    → anchored_with res log ≡ ok log'
    → record log {
      anchors =
          record { event_count = res.events; head_hash = res.head_hash; head_seq = res.head_seq }
          ∷ log.anchors;
    }
      ≡ log'
stored res log log' good n full h = ok-injective (sym (taken res log good n full) ∙ h)

refused : (log : AuditLog) → ◌≡◌ {A = Result AuditError AuditLog} (err broken_chain) (ok log) → ⊥
refused log e = cc e

module _ (D : Digest) where
  Linked-snoc :
      (p : String) (rows : List EventRow) (x : EventRow)
      → Linked D p rows
      → x.prev_hash ≡ last_hash p rows
      → x.hash ≡ audit_row_hash D x.prev_hash x.event
      → Linked D p (rows ++ x ∷ [])
  Linked-snoc p [] x l before own = (before, own, tt)
  Linked-snoc p (r ∷ rows) x l before own = (l.0, l.1, Linked-snoc r.hash rows x l.2 before own)

  Anchored-snoc :
      (anchors : List AnchorRow) (rows : List EventRow) (x : EventRow)
      → Anchored D anchors rows
      → Anchored D anchors (rows ++ x ∷ [])
  Anchored-snoc [] rows x h = tt
  Anchored-snoc (a ∷ anchors) rows x h = (
    ground (arith, length-snoc rows x, h.0),
    λ k e. h.1 k (sym (at_anchor-append rows x a.event_count h.0) ∙ e),
  )

  start_of :
      (log : AuditLog)
      → (is_empty log.rows ≡ true → log.watermark ≡ "")
      → last_hash "" log.rows ≡ last_hash log.watermark log.rows
  start_of log h = elim (Bool-cases (is_empty log.rows)) [
    | inl blank ↦ ap (λ w. last_hash w log.rows) (sym (h blank))
    | inr some_rows ↦ last_hash_any "" log.watermark log.rows some_rows
  ]

  -- A log that verifies goes on verifying when events are written to it, its anchors included, where an
  -- empty table has the empty watermark.
  pub append_event-verify :
      (log : AuditLog) (id seq : ℕ) (e : AuditEvent)
      → (is_empty log.rows ≡ true → log.watermark ≡ "")
      → (verify D log).ok ≡ true
      → (verify D (append_event D log id seq e)).ok ≡ true
  unfolding append_event
  append_event-verify log id seq e start good =
      let (linked, held) = (verify_iff D log).0 good in
      let prev = last_hash "" log.rows in
      let x : EventRow = record {
        id = id;
        seq = seq;
        event = e;
        prev_hash = prev;
        hash = audit_row_hash D prev e;
      } in
      (verify_iff D (append_event D log id seq e)).1 (
        Linked-snoc log.watermark log.rows x linked (start_of log start) refl,
        Anchored-snoc log.anchors log.rows x held,
      )

  anchor-inv :
      (log log' : AuditLog)
      → is_empty log.rows ≡ false
      → anchor D log ≡ ok log'
      → ((verify D log).ok ≡ true)
        × (log'.watermark ≡ log.watermark)
        × (log'.anchors
            ≡ record {
              event_count = length log.rows;
              head_hash = last_hash log.watermark log.rows;
              head_seq = (verify D log).head_seq;
            }
              ∷ log.anchors)
  unfolding anchor
  anchor-inv log log' full h = elim (Bool-cases (verify D log).ok) [
    | inr bad ↦ absurd (refused log' (ground (arith, bad, h)))
    | inl good ↦
        let (n, head) = verify_head D log in
        let same =
          stored (verify D log) log log' good (length log.rows - 1) (n ∙ at_least log.rows full)
            h in
        (
          good,
          ap (λ (l : AuditLog). l.watermark) (sym same),
          ap (λ (l : AuditLog). l.anchors) (sym same)
              ∙ entry _ _ _ _ (verify D log).head_seq log.anchors n (head full),
        )
  ]

  anchored_head :
      (log : AuditLog)
      → is_empty log.rows ≡ false
      → at_anchor log.rows (length log.rows) ≡ some (last_hash log.watermark log.rows)
  anchored_head log full =
      let n = at_least log.rows full in
      ap (at_anchor log.rows) n ∙ at_anchor-last log.watermark log.rows (length log.rows - 1) n

  -- Once a log is anchored, a table of rows put in its place verifies only if it is no shorter and if,
  -- row by row up to the anchor, it hashes the same texts, unless at one of these places the two tables
  -- hash different texts to one SHA-256 value.
  pub anchor_evidence :
      (log log' : AuditLog) (rows : List EventRow)
      → is_empty log.rows ≡ false
      → anchor D log ≡ ok log'
      → (verify D (record log' { rows = rows })).ok ≡ true
      → (length log.rows ≤ length rows)
        × (SameTexts D (length log.rows) log.rows rows
            ⊎ Collision D (length log.rows) log.rows rows)
  anchor_evidence log log' rows full h good' =
      let n = length log.rows - 1 in
      let size : length log.rows ≡ suc n = at_least log.rows full in
      let (good, same, latest) = anchor-inv log log' full h in
      let held = ((verify_iff D (record log' { rows = rows })).0 good').1 in
      let (enough, head_at) = subst (λ a. Anchored D a rows) latest held in
      let (k, at) = at_anchor-some rows n (ground (arith, size, enough)) in
      let is_head = head_at k (ap (at_anchor rows) size ∙ at) in
      (
        ground (arith, enough),
        subst (λ m. SameTexts D m log.rows rows ⊎ Collision D m log.rows rows) (sym size)
            (anchored_prefix D log (record log' { rows = rows }) n
              (last_hash log.watermark log.rows) good good' (sym same)
              (sym (ap (at_anchor log.rows) size) ∙ anchored_head log full) (at ∙ ap some is_head)),
      )
