-- ===== src/Lib.antt =====
-- KCSP, a security operations platform: the core of its Go services.
--
-- Events enter through the pipeline engine, which normalizes and stores them, detects, and makes
-- findings and alerts of what it detects, with an audit entry for each. The engine counts
-- authentication failures by the correlation store. Analysts change alerts and open incidents by
-- the SOC service. Rules written in Sigma are compiled to conditions over events or to correlations;
-- hunts are queries of analysts, which are checked and compiled to SQL. Playbooks of automatic actions
-- are checked against the catalog of actions and their approvals. The engine and the service keep
-- their state in a repository; the one modelled is the one in memory.
--
-- The parts and their files (paths of the sources are from the repository's root):
--   Base         texts, lists, maps, integers and tests that the parts share
--   Core         internal/core/model.go: the records, and the errors of all packages as one type
--   Tenant       internal/platform/tenant/id.go: Valid
--   Store        internal/store/memory.go, a function per method of Memory (State, Rules, Events,
--                Alerts, Incidents, Audit, Overview), and internal/store/repository.go (Repository),
--                which puts the test of the context before each; the other modules prove
--   Soc          internal/soc/service.go: Triage is UpdateAlert, Creation is CreateIncident, Response
--                is UpdateIncident, Lifecycle the tables and helpers; the other modules prove
--   Correlation  internal/detection/correlation.go: Temporal is matchTemporal, Evaluate is
--                EvaluateCorrelation, Observe is MemoryCorrelationStore; the other modules prove
--   Pipeline     internal/pipeline/engine.go: Rules is New, Normalize, Detect, Outcome is makeFinding
--                and makeAlert, Ingest; NormalForm, Risk and Duplicates prove
--   Sigma        internal/detection/compiler.go: Values is scalarValues, eventFieldValues and
--                nestedValue, Selection compiles and evaluates selections, Glob is Go's path.Match,
--                Quantifiers is expandQuantifiers, Condition and Parser are the nodes and the parser
--                of conditions, Correlation is compileCorrelation, Compile is Compile and Evaluate;
--                Bounds, RoundTrip, Sound and WellFormed prove
--   Hunt         internal/core/hunt.go (Request) and internal/hunt/query.go: Fields is resolveField,
--                Validate is validateExpression, Compile is CompileExpression, Normalize is
--                Normalize, ValidateTemplate and ResolveTemplate; the other modules prove
--   Soar         internal/core/soar.go (Node) and internal/soar/validate.go: Validate is validateNode,
--                Ancestors is maximumApprovalAncestors, Cycle is detectCycle, Actions is the last loop
--                of Validate; the other modules prove
--   Examples     concrete inputs, at which each result is used
--
-- How the code is modelled:
--   A method takes the state and returns it with its answer. The mutex of a store is held through a
--   method, so a method is one step, and an interleaving of requests is a sequence of steps
--   (Store.Reachable). Maps are association lists; a missing key reads as Go's zero value where the
--   code reads it so. An error is a value (Result), and what was written before it stays written
--   (Store.Action).
--   A time is a number of nanoseconds, 0 for the zero time. The deltas of risk factors, the criticality
--   of a device, the ports of an endpoint, and the lookback and limit of a hunt have a sign. The other
--   counts, versions, severities and limits have none: inputs in which one of them is negative are
--   outside the model. Counts are not bounded by the machine's 64 bits, which no count of stored
--   objects reaches.
--   The clock, the random identifiers and the error of the request's context are arguments (Env),
--   numbered in the order in which the code asks for them. SHA-256, JSON and RFC 3339 are arguments
--   (Codec, Encoder). Upper and lower case follow Unicode for ASCII, Latin-1 and Cyrillic letters.
--   sort.Slice keeps the order of equal elements in the model; in Go that order is not determined.
--   Nearly every loop is over a list or a text. On fuel run path.Match, which takes a
--   character with each step and has the length of the text plus one; the parser of conditions, which
--   takes a token at least in every third call and has three times the number of tokens plus three; and
--   the walk over the ancestors of a node, which takes a dependency with each step and has as much as
--   there are dependencies, those of the node counted twice. The search for a cycle is a loop over the
--   calls and ends of calls that are still to come, with as much as these and the nodes and their
--   dependencies.
--   The YAML decoder, fmt.Sprint and time.ParseDuration are arguments of the compiler (Libraries).
--   The 64-bit product of a lookback in seconds keeps its wrap-around (Hunt.Normalize), and ParseInt
--   its range.
--
-- What is not modelled: the entity graph, of which the engine reads only an error; published
-- detection rules, threat intelligence and behavior baselines, which the repository in memory does
-- not offer to the engine; the loops of Validate over the dependencies of a playbook, and the
-- execution of playbooks; the cursor of a hunt, which is encoded JSON; the stores on databases; the
-- collectors, agents, connectors, the HTTP layer and the other services; counters and logs.
pub mod Base
pub mod Core
pub mod Tenant
pub mod Store
pub mod Soc
pub mod Correlation
pub mod Sigma
pub mod Hunt
pub mod Soar
pub mod Pipeline
pub mod Examples
