-- ===== src/Lib.antt =====
-- Verification of Legant's delegation core: the engine that attenuates authority, the stored
-- chains of delegations, the token exchange that mints from them, and the revocation of what was
-- minted, with the two places that enforce tokens offline, the SDK and the guard of coding agents,
-- the MCP gateway that enforces them in front of tool servers, and what these stand on: the
-- signing keys, the rate limiter, and the hash-chained audit log.
--
-- How the parts interact. A user consents to an agent's root delegation and an agent re-delegates
-- part of it (internal/delegation/chains); the exchange (internal/auth/token_exchange.go) resolves
-- the agent's newest chain up to the user, clamps it to the request and to the subject's token,
-- mints and records a signed token (internal/delegation, internal/revocation), whose audience is
-- canonicalized by internal/mcpauth; a resource server verifies and authorizes with sdk, offline;
-- revocation marks rows of the record, which introspection and the feed read; resource servers
-- pull the feed. The gateway (internal/mcpgw) verifies the inbound token, authorizes the called
-- tool, and mints a narrower token for the upstream. The key store (internal/keystore) holds the
-- key that the exchange and the gateway sign with and the keys that verify. What happens is
-- appended to the audit log (internal/audit), which internal/retention prunes.
--
-- Files:
--   Base.antt, Base/       shared names, lists, results, Go's int, and Go's package strings
--   World.antt             floats, time zones, net/url, strings.ToLower and the texts that PostgreSQL
--                          stores, as an interface
--   Delegation/AllowList   permitList, intersectAllow, intersectInts, Attenuate, IsSubset of
--                          internal/delegation/delegation.go; AllowList/Laws their lemmas
--   Delegation/Constraints TimeWindow, RateLimit, Constraints, Permit, Tighten; Windows and Laws
--   Delegation/Grant       Grant, NewRootGrant, Delegate; Grant/Chain, Exact and Within
--   Delegation/Jwt         golang-jwt and the keys, as an interface with its documented laws
--   Delegation/Token       Signer, Verifier, DelegationClaims; Token/Actors and RoundTrip
--   Mcpauth.antt           internal/mcpauth/resource.go
--   Database.antt          the tables: delegation_chains, delegation_consents, agents,
--                          exchanged_tokens, audit_events
--   Chains.antt, Chains/   internal/delegation/chains/service.go: ResolveGrantChain, Redelegate,
--                          agentInChain; Consent has GrantConsent and ListUserDelegations, Revoke has
--                          RevokeDelegationTree; the others are proofs
--   Revocation.antt        internal/revocation/store.go and the query of internal/revocation/feed.go
--   Exchange.antt          internal/auth/token_exchange.go: Handle, IntrospectDelegation; Steps,
--                          Handle, Sound and Limits are proofs
--   Sdk.antt, Sdk/         sdk/verifier.go; Verify has Verifier.Verify, Feed has sdk/revocation.go;
--                          Laws and Accept are proofs
--   Ccguard.antt, Ccguard/ internal/ccguard/guard.go: Decide and its checks, with the path functions
--                          of paths.go; Deny and Decided are proofs
--   Mcpgw.antt, Mcpgw/     internal/mcpgw: the upstreams of gateway.go and store.go; Json and Decode are
--                          encoding/json and the scan for duplicate keys, Call the handler from
--                          handle to filterToolsList; Upstreams, Narrowed, Guarded, Contained,
--                          Filtered, Alias and Json/Scanned are proofs
--   Audit.antt, Audit/     internal/audit/verify.go, CheckAgainstAnchor of anchor.go, the SQL functions
--                          of migrations/000011_audit_hash_chain.up.sql, and pruneAuditChained of
--                          internal/retention/retention.go; Chain, Evidence, Append, Prune are proofs
--   Grants.antt, Grants/   internal/grants/grants.go: the file, Lint and buildTree; WhoCan has WhoCan
--                          and authorizeNode, with MintGrant of internal/ccguard/roles.go, and Apply has
--                          Apply; WhoCan/Matches, Trees, Linted and Applied are proofs
--   Keystore.antt          internal/keystore/keystore.go; Keystore/Rotated and Rewrapped are proofs
--   Middleware.antt        internal/middleware/ratelimit.go; Middleware/Limited has proofs
--   Tests.antt, Tests/     a concrete platform, and each theorem at concrete data
--
-- State is passed explicitly: a method takes the database as lists of rows and returns the new
-- one. A transaction is one step, which either returns the new database or an error and no
-- database. time.Now() is an argument, in nanoseconds since Go's zero time; ids that PostgreSQL
-- generates and the random hex of a token id are arguments. An error is a constructor for each
-- message.
--
-- Bounds and fuel. walk and agent_in_chain take the source's own bound maxChainWalk (32) as fuel
-- and, as the source does, stop there. The recursive query of RevokeDelegationTree is iterated as
-- often as there are rows, and what is proved of it is bounded by that number. The scan for
-- duplicate keys of the gateway is given two rounds for each token and one more, which is enough
-- for the tokens of every document. Everything else is structural recursion.
--
-- Not modelled: connection failures and context cancellation, metrics, the live console, HTTP
-- output, JSON decoding of stored constraints (taken as decoded), fetching over HTTP and the parse
-- of a JWKS, the advisory lock of the rate cap (the transaction is one step), the classification
-- of a tool call and the reading of shell commands in internal/ccguard (parameters of the guard),
-- and the packages around the core (OAuth server, SCIM, organizations, command line), of the
-- grants file the pruning of a directory, and of the gateway the timers, the streaming of
-- responses and the text of a challenge.
pub mod Base
pub mod World
pub mod Audit
pub mod Ccguard
pub mod Chains
pub mod Database
pub mod Delegation
pub mod Exchange
pub mod Grants
pub mod Keystore
pub mod Mcpauth
pub mod Mcpgw
pub mod Middleware
pub mod Revocation
pub mod Sdk
pub mod Tests
