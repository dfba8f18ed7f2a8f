-- ===== src/Audit.antt =====
-- internal/audit/verify.go and the check against a shipped anchor of anchor.go, with the functions of
-- migrations/000011_audit_hash_chain.up.sql that write the chain. The columns are the texts that
-- PostgreSQL renders; rows stand in the order of `seq`. SHA-256 is a parameter.
pub mod Chain
pub mod Append
pub mod Evidence
pub mod Prune
use Prim.Native.String.{◌++◌ as text_append}
use mathlib.Core.List.{reverse}
use legant.Base.{
  ℕ, zero, suc, ◌+◌, ltb, String, Bool, true, false, not, List, [], ◌∷◌, ◌++◌, Option, none, some,
  ◌==◌, string_eq, nat_eq, ◌≡◌, if◌then◌else◌, keep, length,
}
use legant.Base.Text.{join, text_length}
use legant.Base.Result.{Result, ok, err, ◌>>=◌, ◌>>◌, reject_if}

-- SHA-256 in hexadecimal, and the text of an instant.
pub record Digest : Type 0 where
  pub sha256 : String → String
  pub sha256_length : (s : String) → text_length (sha256 s) ≡ 64
  pub epoch_text : ℕ → String

pub record AuditEvent : Type 0 where
  pub actor_type : String
  pub actor_id : String
  pub action : String
  pub resource_type : String
  pub resource_id : String
  pub on_behalf_of_sub : String
  pub actor_chain : List String
  pub delegation_id : String
  pub grant_jti : String
  pub org_id : String
  pub ip : String
  pub user_agent : String
  pub metadata : String
  pub created_at : ℕ

pub record EventRow : Type 0 where
  pub id : ℕ
  pub seq : ℕ
  pub event : AuditEvent
  pub prev_hash : String
  pub hash : String

pub record AnchorRow : Type 0 where
  pub event_count : ℕ
  pub head_hash : String
  pub head_seq : ℕ

-- The table with its rows in the order of `seq`, the watermark, and the anchors, the newest first.
pub record AuditLog : Type 0 where
  pub rows : List EventRow
  pub watermark : String
  pub anchors : List AnchorRow

pub data BreakKind : Type 0 where
  content link truncation prefix : BreakKind

pub record VerifyResult : Type 0 where
  pub events : ℕ
  pub ok : Bool
  pub head_hash : String
  pub head_seq : ℕ
  pub break_id : ℕ
  pub break_kind : Option BreakKind

abbrev pub nothing_seen : VerifyResult
nothing_seen = record {
  events = 0;
  ok = true;
  head_hash = "";
  head_seq = 0;
  break_id = 0;
  break_kind = none;
}

pub data AuditError : Type 0 where
  broken_chain bad_signature negative_offset : AuditError

-- `OFFSET count - 1`; a negative offset is an error, which the caller passes over.
abbrev pub at_anchor : List EventRow → ℕ → Option String
at_anchor rows zero = none
at_anchor [] (suc n) = none
at_anchor (r ∷ rows) (suc zero) = some r.hash
at_anchor (r ∷ rows) (suc (suc n)) = at_anchor rows (suc n)

abbrev pub last_hash : String → List EventRow → String
last_hash prev [] = prev
last_hash prev (r ∷ rows) = last_hash r.hash rows

abbrev pub found_prefix : Option String → String → VerifyResult → VerifyResult
found_prefix none head res = res
found_prefix (some h) head res =
    if not (h == head) then record res { ok = false; break_kind = some prefix } else res

-- The comparison with one anchor.
abbrev pub against : List EventRow → ℕ → String → VerifyResult → VerifyResult
against rows count head res =
    if ltb res.events count
    then record res { ok = false; break_kind = some truncation }
    else found_prefix (at_anchor rows count) head res

abbrev pub against_latest : List AnchorRow → List EventRow → VerifyResult → VerifyResult
against_latest [] rows res = res
against_latest (a ∷ anchors) rows res = against rows a.event_count a.head_hash res

module _ (D : Digest) where
  -- The text that is hashed, its parts apart by the unit separator.
  unfoldable pub row_text : String → AuditEvent → String
  row_text prev e = join "\u{1f}" (
      prev
      ∷ e.actor_type
      ∷ e.actor_id
      ∷ e.action
      ∷ e.resource_type
      ∷ e.resource_id
      ∷ e.on_behalf_of_sub
      ∷ join "," e.actor_chain
      ∷ e.delegation_id
      ∷ e.grant_jti
      ∷ e.org_id
      ∷ e.ip
      ∷ e.user_agent
      ∷ e.metadata
      ∷ D.epoch_text e.created_at
      ∷ [])

  unfoldable pub audit_row_hash : String → AuditEvent → String
  audit_row_hash prev e = D.sha256 (row_text prev e)

  -- One round of the loop; `prev` is the hash of the row before.
  unfoldable pub check_row : String → EventRow → VerifyResult → VerifyResult
  check_row prev r res =
      let seen = record res { events = res.events + 1; head_hash = r.hash; head_seq = r.seq } in
      if not res.ok
      then seen
      else if not (r.prev_hash == prev)
      then record seen { ok = false; break_id = r.id; break_kind = some link }
      else if not (r.hash == audit_row_hash r.prev_hash r.event)
      then record seen { ok = false; break_id = r.id; break_kind = some content }
      else seen

  unfoldable pub scan : String → List EventRow → VerifyResult → VerifyResult
  scan prev [] res = res
  scan prev (r ∷ rows) res = scan r.hash rows (check_row prev r res)

  unfoldable pub verify : AuditLog → VerifyResult
  verify log =
      let res = scan log.watermark log.rows nothing_seen in
      if not res.ok then res else against_latest log.anchors log.rows res

  unfoldable pub anchor : AuditLog → Result AuditError AuditLog
  anchor log =
      let res = verify log in
      if not res.ok
      then err broken_chain
      else if res.events == 0
      then ok log
      else ok (record log {
        anchors =
            record { event_count = res.events; head_hash = res.head_hash; head_seq = res.head_seq }
            ∷ log.anchors;
      })

  -- `CheckAgainstAnchor` behind the signature of the shipped record.
  unfoldable pub check_against_anchor :
      AuditLog → Bool → ℕ → String → Result AuditError VerifyResult
  check_against_anchor log signature_valid count head =
      let res = verify log in
      if not signature_valid
      then err bad_signature
      else if not res.ok
      then ok res
      else if ltb res.events count
      then ok (record res { ok = false; break_kind = some truncation })
      else if count == 0
      then err negative_offset
      else ok (elim (at_anchor log.rows count) [
        | none ↦ record res { ok = false; break_kind = some truncation }
        | some h ↦ found_prefix (some h) head res
      ])

  -- The trigger: a row is chained to the last one.
  unfoldable pub append_event : AuditLog → ℕ → ℕ → AuditEvent → AuditLog
  append_event log id seq e =
      let prev = last_hash "" log.rows in
      record log {
        rows =
            log.rows
            ++ record {
              id = id;
              seq = seq;
              event = e;
              prev_hash = prev;
              hash = audit_row_hash prev e;
            }
              ∷ [];
      }

-- `pruneAuditChained` of internal/retention/retention.go.
abbrev pub first_prev : List EventRow → String
first_prev [] = ""
first_prev (r ∷ rows) = r.prev_hash

abbrev pub is_kept : ℕ → EventRow → Bool
is_kept cutoff r = not (ltb r.event.created_at cutoff)

abbrev pub deletes_some : ℕ → List EventRow → Bool
deletes_some cutoff [] = false
deletes_some cutoff (r ∷ rows) = if is_kept cutoff r then deletes_some cutoff rows else true

unfoldable pub prune_audit_chained : ℕ → AuditLog → AuditLog
prune_audit_chained cutoff log =
    let kept = keep (is_kept cutoff) log.rows in
    record log {
      rows = kept;
      watermark = if deletes_some cutoff log.rows then first_prev kept else log.watermark;
    }
