-- ===== src/Tests/Chains.antt =====
-- Tests and instances for internal/delegation/chains: Alice consents, the assistant passes on to an
-- OCR agent, the chain resolves, and Alice revokes it.
use legant.Base.{pos, ◌≡◌, refl, false, [], ◌∷◌, none, string_eq, length}
use legant.Base.Affix.{cut_prefix, cut_suffix, has_suffix, trim_suffix}
use legant.Base.Result.{ok}
use legant.Mcpauth.{canonicalize_resource, canonicalize_url, strip_default_port}
use legant.Delegation.Grant.{Grant, root, child}
use legant.Database.{ChainRow, ConsentRow, Database, find_chain, find_live}
use legant.Chains.{
  text_lt, canonicalize_all, validate_and_canonicalize, latest, walk, link_of, grant_of,
  resolve_grant_chain, agent_in_chain, delegatee_ok, redelegated, redelegate,
}
use legant.Chains.Sound.{IsSound, IsSound-nil}
use legant.Chains.Latest.{HasUniqueIds}
use legant.Chains.Resolved.{Resolved, resolve-Resolved}
use legant.Chains.Redelegate.{redelegate-IsSound}
use legant.Chains.Consent.{ConsentRequest, consented, grant_consent}
use legant.Chains.ConsentSound.{Recorded, grant_consent-IsSound}
use legant.Chains.Revoke.{revoke_delegation_tree, children, tree, deactivate, count_active}
use legant.Chains.Revoke.Subtree.{TreeRevoked, revoke-TreeRevoked}
use legant.Revocation.{revoke_where, count_revoked}
use legant.Tests.Sample.{sample, sample-IsTextual}
use legant.Tests.Delegation.{
  engine, parent_limits, child_limits, parent_limits-IsWellFormed, child_limits-IsWellFormed,
  passed_on,
}

-- What a run of the stored chains computes through.
unfoldable pub store : Unit {0}
unfolding engine cut_prefix cut_suffix has_suffix trim_suffix canonicalize_resource canonicalize_url
    strip_default_port text_lt canonicalize_all validate_and_canonicalize latest walk link_of
    grant_of resolve_grant_chain agent_in_chain delegatee_ok redelegate grant_consent
    revoke_delegation_tree children tree deactivate count_active find_chain find_live revoke_where
    count_revoked length
store = tt

abbrev no_rows : Database
no_rows = record {
  chains = [];
  consents = [];
  agents =
      record { id = "assistant"; status = "active"; org_id = none }
      ∷ record { id = "ocr"; status = "active"; org_id = none }
      ∷ [];
  tokens = [];
  audit = [];
}

abbrev alice_request : ConsentRequest
alice_request = record {
  user_id = "alice";
  agent_id = "assistant";
  org_id = "";
  scopes = "expenses:submit" ∷ "expenses:read" ∷ [];
  constraints = parent_limits;
  resource = "https://api/";
  ttl = pos 1000;
}

abbrev consent_receipt : ConsentRow
consent_receipt = record {
  id = "c1";
  user_id = "alice";
  agent_id = "assistant";
  org_id = none;
  scopes = "expenses:submit" ∷ "expenses:read" ∷ [];
  constraints = parent_limits;
  resource = "https://api/";
}

abbrev pub consented_rows : Database
consented_rows = record no_rows {
  chains = consented "c1" "d1" alice_request parent_limits 1 ∷ [];
  consents = consent_receipt ∷ [];
}

consent_runs : grant_consent no_rows 1 "c1" "d1" alice_request ≡ ok (consented_rows, "c1", "d1")
unfolding store
consent_runs = refl

parent_limits_validate : validate_and_canonicalize parent_limits ≡ ok parent_limits
unfolding store
parent_limits_validate = refl

pub consented_rows-IsSound : IsSound consented_rows.chains × HasUniqueIds consented_rows.chains
consented_rows-IsSound =
    let (sound, unique, _) =
      grant_consent-IsSound no_rows 1 "c1" "d1" alice_request sample-IsTextual
        parent_limits-IsWellFormed.categories parent_limits-IsWellFormed.tools IsSound-nil tt
        consent_runs in
    (sound, unique)

grant_consent-IsSound_example :
    IsSound consented_rows.chains
    × HasUniqueIds consented_rows.chains
    × Recorded no_rows 1 "c1" "d1" alice_request consented_rows
grant_consent-IsSound_example =
    grant_consent-IsSound no_rows 1 "c1" "d1" alice_request sample-IsTextual
      parent_limits-IsWellFormed.categories parent_limits-IsWellFormed.tools IsSound-nil tt
      consent_runs

abbrev alice_row : ChainRow
alice_row = consented "c1" "d1" alice_request parent_limits 1

abbrev ocr_row : ChainRow
ocr_row = redelegated "d2" "d1" alice_row "assistant" "ocr" passed_on child_limits (pos 500) 2

abbrev pub delegated_rows : Database
delegated_rows = record consented_rows { chains = ocr_row ∷ alice_row ∷ [] }

pub ocr_redelegated :
    redelegate consented_rows 2 "d2" "d1" "assistant" "ocr" passed_on child_limits (pos 500)
    ≡ ok (delegated_rows, "d2")
unfolding store
ocr_redelegated = refl

pub delegated_rows-IsSound : IsSound delegated_rows.chains × HasUniqueIds delegated_rows.chains
delegated_rows-IsSound =
    redelegate-IsSound consented_rows 2 "d2" "d1" "assistant" "ocr" passed_on child_limits (pos 500)
      sample-IsTextual child_limits-IsWellFormed.categories child_limits-IsWellFormed.tools
      consented_rows-IsSound.0 consented_rows-IsSound.1 ocr_redelegated

redelegate-IsSound_example : IsSound delegated_rows.chains × HasUniqueIds delegated_rows.chains
redelegate-IsSound_example =
    redelegate-IsSound consented_rows 2 "d2" "d1" "assistant" "ocr" passed_on child_limits (pos 500)
      sample-IsTextual child_limits-IsWellFormed.categories child_limits-IsWellFormed.tools
      consented_rows-IsSound.0 consented_rows-IsSound.1 ocr_redelegated

abbrev pub ocr_chain : Grant
ocr_chain = child (legant.Chains.link_of 3 ocr_row) (root (legant.Chains.link_of 3 alice_row))

ocr_resolved : resolve_grant_chain delegated_rows 3 "ocr" "alice" ≡ ok (ocr_chain, "d2")
unfolding store
ocr_resolved = refl

resolve-Resolved_example : Resolved delegated_rows 3 "ocr" "alice" ocr_chain "d2"
resolve-Resolved_example =
    resolve-Resolved delegated_rows 3 "ocr" "alice" delegated_rows-IsSound.0
      delegated_rows-IsSound.1 ocr_resolved

abbrev revoked_rows : Database
revoked_rows = record delegated_rows {
  chains = record ocr_row { active = false } ∷ record alice_row { active = false } ∷ [];
  audit =
      record {
        actor_type = "user";
        actor_id = "alice";
        action = "delegation.revoked";
        resource_id = "d1";
        on_behalf_of_sub = "";
        actor_chain = [];
        delegation_id = none;
        grant_jti = "";
      }
      ∷ [];
}

alice_revoked : revoke_delegation_tree delegated_rows 4 "d1" "alice" ≡ ok (revoked_rows, 2, 0)
unfolding store
alice_revoked = refl

revoke-TreeRevoked_example : TreeRevoked delegated_rows revoked_rows 4 "d1" "alice"
revoke-TreeRevoked_example =
    revoke-TreeRevoked delegated_rows 4 "d1" "alice" delegated_rows-IsSound.1 alice_revoked
