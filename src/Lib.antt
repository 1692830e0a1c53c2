-- ===== src/Lib.antt =====
-- Powerplant runs a coding agent on a sanitized copy of a project. The agent has five tools only;
-- a broker answers their calls, keeps the gates that a run must pass, and makes a patch package
-- that an operator may apply. Operators also promote skills, texts of guidance whose content is
-- bound to a hash. This library models the broker with what it rests on, the life of a skill, and
-- the gates before a run: contracts, proposals, evaluators and the isolation probe; and the
-- approval behind one.
--
-- Broker models src/broker/project-tool-broker.ts: BrokerState is the state; Broker/Handlers has
-- handleListFiles, handleReadFile, handleWriteFile, handleRunCheck and handleFinalize, each a
-- function from a state and an input to the new state and a reply; Broker/Session has the loop of
-- runProjectPilotBrokerSession over the streams that the API opens, and its result. The record
-- Machine stands for what lies around: the files (a type Disk), the checks in Docker, the
-- verification of the source, the making of the patch, the clock and the texts of diagnostics.
-- Broker/Transcript says what a conversation shows by its replies alone, and the proofs compare
-- the flags of the broker with it. The loop ends with the streams that it is given; it needs no
-- fuel.
--
-- Contracts models src/contracts/project-tool-contracts.ts and the check results of
-- src/contracts/verification-preflight-report.ts; an input is an object of named values, and a
-- schema is a parser. Outcome models src/projects/evaluate-terminal-outcome.ts. Artifact models
-- src/projects/detect-artifact-corruption.ts. Glob models matchesGlob of
-- src/projects/build-sanitized-workspace.ts: the regular expression that it writes is a list of
-- tokens, and how the engine reads and searches it is written out. The handler of writes uses
-- Contracts, Glob and Artifact; the session uses Outcome.
--
-- Skills models src/skills/skill-types.ts, src/skills/skill-lifecycle.ts,
-- src/skills/skill-audit.ts and src/skills/skill-envelope.ts: SkillStore has the directories of
-- the candidates, the registry file and the audit log; Skills/Hash has computeSkillContentHash,
-- Skills/Lifecycle the operations, Skills/Envelope renderPromptEnvelope. The record Host stands
-- for the digest and for JSON with the schema of manifests.
--
-- Approvals models src/approvals/bash-confirmation-policy.ts,
-- src/approvals/tool-confirmation-policy.ts and src/approvals/confirmation-event-handler.ts, with
-- the decision of src/sessions/run-cloud-output-allow-smoke.ts: the policies judge pending tool
-- uses, and Approvals/Confirmation has the loop of runWithConfirmation, in both modes, with what
-- it posts. Source models captureSourceManifest of src/projects/build-pilot-snapshot.ts and
-- src/projects/verify-source-unchanged.ts over a tree of files, links and directories; Sanitizer
-- models the rest of src/projects/build-sanitized-workspace.ts over the same tree. ToolPolicy
-- models evaluateToolRequest and isStatPathBypassAttempt of src/preflight/tool-policy.ts, Launch
-- validateLaunchPolicy and buildDockerArgv of src/broker/executor-launch-policy.ts, and Checks
-- classifyCheckResult and tailOutput of src/verification/classify-check-result.ts.
--
-- Ingest models src/skills/skill-ingestion.ts and src/skills/candidate-store.ts: Ingest/Walk has
-- walkSourceDirectory, Ingest/Copy copyFileSecure and copyToSnapshot, Ingest/Schema
-- validateCandidateSchema, Ingest/Import ingestSkillPackage over a store of candidates,
-- quarantine and log. A source file is what its handle gives: a list of reads, and its status
-- before and after. Loader models src/projects/load-project-contract.ts, which makes the contract
-- of the broker: Loader/Paths has the tests on paths, Loader/Policy and Loader/Verify the two
-- files. Scout models src/scout/scout-candidate.ts, src/scout/derive-task.ts, buildFeatureTrial
-- of src/scout/feature-trial.ts and the loop of src/scout/scan.ts: what a source proposes is
-- judged against the contract, and judged again before a run.
--
-- Approve models the application of a patch: checkSourceDrift of src/runs/apply-patch.ts,
-- src/sessions/session-chain.ts, and cmdApprove of src/cli/commands/approve.ts, with the commands
-- to git as a log and its answers as values.
--
-- Probe models the isolation probe: src/contracts/custom-tool-contract.ts,
-- src/diagnostics/isolation-proof-report.ts, src/broker/run-isolated-executor.ts and
-- src/broker/custom-tool-broker.ts, the session as a function of the streams of the API and of
-- what each launch of Docker does. Evaluator models src/preflight/oracle-bundle.ts,
-- src/preflight/capsule-evaluator.ts and src/preflight/oracle-evaluator.ts: Evaluator/Spawn takes
-- the events of a child process one by one, Evaluator/Capsule has the trust root, both result
-- channels and the receipt, and Evaluator/Oracle the evaluator without a container.
--
-- Text has JavaScript strings as lists of UTF-16 code units, Prelude the shared tests, lists,
-- tables and sets. A table is an association list of its own keys, so a lookup of a name of
-- Object.prototype is not modelled, but in Scout, Skills and ToolPolicy, where the source does
-- one. Replies and refusals are values in place of their texts. Errors of the file system are
-- modelled where the source reacts to them: in the broker an effect returns a value or the error
-- that it throws, and a skill operation is told of a missing file.
--
-- Not modelled: the workers, container launches, provisioning and sessions (calls of the API and
-- of Docker), the other commands, reports and their rendering, the generation of policies, and
-- the making of patches, which reaches the broker as a parameter.
pub mod Prelude
pub mod Text
pub mod Glob
pub mod Artifact
pub mod Contracts
pub mod Outcome
pub mod Broker
pub mod Skills
pub mod Approvals
pub mod Source
pub mod Sanitizer
pub mod ToolPolicy
pub mod Launch
pub mod Checks
pub mod Ingest
pub mod Probe
pub mod Evaluator
pub mod Scout
pub mod Loader
pub mod Approve
