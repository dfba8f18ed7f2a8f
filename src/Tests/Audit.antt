-- ===== src/Tests/Audit.antt =====
-- Tests and instances for internal/audit, with a digest of two values.
use legant.Base.{
  ℕ, ◌≤◌, String, ◌≡◌, refl, ◌↔◌, ◌⊎◌, Bool, true, false, [], ◌∷◌, arith, ◌==◌, string_eq, keep,
  if◌then◌else◌,
}
use legant.Base.Text.{join, text_length}
use legant.Base.Result.{ok}
use legant.Audit.{
  Digest, AuditEvent, AnchorRow, AuditLog, row_text, audit_row_hash, check_row, scan, verify,
  anchor, append_event, prune_audit_chained,
}
use legant.Audit.Chain.{Linked, Anchored, verify_iff}
use legant.Audit.Evidence.{SameTexts, Collision}
use legant.Audit.Append.{anchor_evidence}
use legant.Audit.Prune.{prune_audit_chained-anchored}

abbrev two_hashes : String → String
two_hashes s =
    if s == ""
    then "0000000000000000000000000000000000000000000000000000000000000000"
    else "1111111111111111111111111111111111111111111111111111111111111111"

two_hashes-length : (s : String) → text_length (two_hashes s) ≡ 64
unfolding text_length
two_hashes-length s = from (s == "")
  where
    from :
        (b : Bool)
        → text_length (
            if b
            then "0000000000000000000000000000000000000000000000000000000000000000"
            else "1111111111111111111111111111111111111111111111111111111111111111")
          ≡ 64
    from true = unfold text_length in refl
    from false = unfold text_length in refl

abbrev digest : Digest
digest = record { sha256 = two_hashes; sha256_length = two_hashes-length; epoch_text = λ t. "" }

unfoldable pub auditing : Unit {0}
unfolding join row_text audit_row_hash check_row scan verify anchor append_event keep
    prune_audit_chained
auditing = tt

abbrev event_at : ℕ → AuditEvent
event_at at = record {
  actor_type = "agent";
  actor_id = "ocr";
  action = "token.exchange";
  resource_type = "token";
  resource_id = "j1";
  on_behalf_of_sub = "user:1";
  actor_chain = "agent:ocr" ∷ [];
  delegation_id = "d1";
  grant_jti = "j1";
  org_id = "";
  ip = "";
  user_agent = "";
  metadata = "{}";
  created_at = at;
}

abbrev new_log : AuditLog
new_log = record { rows = []; watermark = ""; anchors = [] }

abbrev one_event : AuditLog
one_event = append_event digest new_log 1 1 (event_at 10)

abbrev two_events : AuditLog
two_events = append_event digest one_event 2 2 (event_at 20)

two_events-verify : (verify digest two_events).ok ≡ true
unfolding auditing
two_events-verify = refl

verify_iff_example :
    ((verify digest two_events).ok ≡ true)
    ↔ (Linked digest "" two_events.rows × Anchored digest [] two_events.rows)
unfolding auditing
verify_iff_example = verify_iff digest two_events

abbrev head_now : String
head_now = two_hashes "x"

abbrev two_counted : AnchorRow
two_counted = record { event_count = 2; head_hash = head_now; head_seq = 2 }

abbrev anchored : AuditLog
anchored = record two_events { anchors = two_counted ∷ [] }

anchored_log : anchor digest two_events ≡ ok anchored
unfolding auditing
anchored_log = refl

anchor_evidence_example :
    (2 ≤ 3)
    × (SameTexts digest 2 two_events.rows (append_event digest anchored 3 3 (event_at 30)).rows
        ⊎ Collision digest 2 two_events.rows (append_event digest anchored 3 3 (event_at 30)).rows)
unfolding auditing
anchor_evidence_example =
    anchor_evidence digest two_events anchored (append_event digest anchored 3 3 (event_at 30)).rows
      refl anchored_log refl

prune_audit_chained-anchored_example : (verify digest (prune_audit_chained 15 anchored)).ok ≡ false
unfolding auditing
prune_audit_chained-anchored_example =
    prune_audit_chained-anchored digest 15 anchored two_counted [] refl (omega arith)
