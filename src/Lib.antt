-- ===== src/Lib.antt =====
-- A verification library for the netbox-operator, a Kubernetes operator that keeps objects of a NetBox
-- in step with custom resources.
--
-- Parts of the program and the modules that model them:
--
-- Placement (internal/netbox/placement.go) chooses the addresses of a new ip-range in a prefix.
--   Placement.Netip has the addresses of net/netip, a bit length and a value without zones, and the
--   conversions addrInt, intAddr, lastAddr; Placement has FirstGap (first_gap, with its loops clip_all
--   and walk), fit, clip, blockSize and alignUp; a panic of math/big is an outcome of its own. Any sort
--   by the low end serves, and an insertion sort stands for slices.SortFunc.
-- Allocation (internal/netbox/allocate.go) asks NetBox for the run that Placement computes, at most
--   maxPlacementAttempts (5) times, while the answer is that somebody else was first. What NetBox lists
--   and answers in each attempt is a parameter, as is the wait between two of them.
-- Grants (internal/resolver/grants.go) decides which references across namespaces are permitted. The
--   grant reader is a parameter that answers or fails; a label selector is what apimachinery makes of
--   it, a test or an error. A check is passed through the methods with its cache of namespace labels.
-- Registry (internal/registry/registry.go, fields.go, naturalkey.go) has what a descriptor says of a
--   kind, as far as the modelled code reads it.
-- Cycle (internal/resolver/cycle.go) looks for a cycle of blocking references through an object before
--   it is resolved. It asks Grants for each edge. The informer cache is a parameter that answers each
--   read with the decoded references of the object. The walk runs in at most MaxRefDepth + 1 rounds:
--   the round at the cap ends the walk or leaves an empty frontier.
-- Json (internal/netbox/object.go) has the values of NetBox's objects, with a float64 given by its bits,
--   and their readings as numbers, ids and texts. strconv, fmt and encoding/json are a parameter, Go.
-- Drift (internal/netbox/drift.go) finds the fields of the desired object that differ from the live one:
--   Changes (changes), genericFKChange, fieldEqual and the comparisons under it, Drift (payload_of),
--   canonicalise and Hash. A map of fields is an association list, as Go leaves the order open; the
--   sorts are insertion sorts.
-- Client (internal/netbox/client.go, do.go) sends the requests. Client.Calls has `do` (do_call) with its
--   attempts and waits: what becomes of each attempt is a parameter, World, and a client has
--   maxRetries + 1 attempts for a call. Client.Listing has List and nextPage over net/url as a
--   parameter, in at most maxPages pages; Client the operations and the mode DryRun, with Allocate of
--   allocate.go, to which placeRange is a parameter; and Client.Redact what do.go logs of a payload. It
--   uses the errors of Errors.
-- Engine (internal/reconciler/generic.go, deferred.go, stamp.go, duplicate.go, payload.go) is one pass over
--   an object from locate on: Engine.Inputs has what it reads and what it does, Engine.Stamping the
--   stamp of internal/provenance on the payload, Engine.Lookup locate and lookup with duplicates and
--   natural keys, Engine.Deferral the deferred fields, and Engine claim, create, update, recreate and
--   applyWrite. It uses Drift for the changes. The payload that build makes, and the rules of the kind,
--   are data of a pass; conditions, Events and counters are left out, and materialise is that of
--   Children. Engine.Finish is the end of a pass in status.go: the status write, the id recorded past
--   it, and Jitter; Engine.Kept puts applyWrite before it.
-- Claims (internal/reconciler/claim.go) is one pass over a claim of an address, a prefix or a range:
--   Claims.Inputs has what it reads and what it does, Claims.Pool the identity and the pool,
--   Claims.Allocate the allocation and the reclaim, Claims.Settle the check of a claim that holds one,
--   Claims.Release the deletion, Claims.Ends how a pass ends, and Claims Reconcile (reconcile). It uses
--   the errors of Errors, the stamp of Provenance and Engine, the backoff of Deletion and the status
--   write of Engine.Finish; the resolver of the pool, an interface in the source, is a parameter that
--   Resolve fills. Claims.Runs has passes one after the other over the objects with one identity.
-- Children (internal/reconciler/children.go, api/v1alpha1/inline_children.go) is the pass over the objects
--   that a parent declares inline, materialise: Children.Names has their paths and names, on bytes,
--   Children.Inputs what the pass reads and does, Children.State what it keeps, Children.Desire the
--   children that are asked for and the object of each, Children.Apply how one is written, and
--   Children.Prune how one that is no longer declared is deleted. What Kubernetes answers to each call
--   is a parameter, as is SetControllerReference.
-- Resolve (internal/resolver/resolver.go, genericfk.go, errors.go) turns a reference into the id of a NetBox object: Resolve
--   (resolve) with byName, byQuery and byID, readinessOf, Classify, and the loops of resolveField and
--   ResolveAll (resolve_fields). The cluster and NetBox are what the record Sources answers. It asks
--   Grants whether a reference is permitted; the search for cycles before it is that of Cycle.
--   Resolve.Generic has a reference to one of several kinds, ResolveGenericFK (resolve_generic).
-- Errors (internal/netbox/errors.go, internal/reconciler/errors.go) has the typed errors of the client
--   and the engine's table of outcomes. Errors look through their wrappers, so a failure is the error at
--   the bottom. A duration is a number of nanoseconds.
-- Provenance (internal/provenance/provenance.go, conflict.go, internal/reconciler/conflict.go) writes
--   the stamp of the cluster and the owner on a NetBox object, recognises the stamp of another writer
--   and counts how often it was seen. strings.ToLower and strings.TrimSpace are parameters.
-- Deletion (internal/reconciler/finalizer.go, cascade.go) takes the finalizer before the first write and
--   releases it after the NetBox object is gone. Deletion.Setting has the object, the answers of
--   Kubernetes and NetBox, and the visible calls of a pass; Deletion has the steps of `deleting` in the
--   order of the source, and takeFinalizer (take_finalizer); Deletion.Cascade has the cascade, and
--   Deletion.Backoff protectedBackoff and deletionHold on the int32 of the attempts. It uses the table
--   of Errors and the stamp of Provenance. A pass there ends with the delay that it gives to
--   `finish`, which is that of Engine.Finish.
--
-- Common has what the modules share: names of the libraries, Boolean tests, lists, results.
--
-- Modules named Tests hold runs of the code at concrete inputs and the theorems at such inputs.
--
-- Not modelled: message texts, logging, metrics and HTTP; controller-runtime and its wiring; the
-- descriptor tables of the single kinds; the decoding of specs into references; generated code;
-- owner references (owners.go), the waits for references (refs.go) and the
-- building of payloads (payload.go), the decoding of the unions of generic references, the
-- validation of descriptors, the query vocabulary and the construction of a client, the export of
-- manifests.
mod Common
pub mod Placement
pub mod Grants
pub mod Registry
pub mod Cycle
pub mod Json
pub mod Claims
pub mod Drift
pub mod Client
pub mod Engine
pub mod Resolve
pub mod Errors
pub mod Provenance
pub mod Deletion
pub mod Allocation
pub mod Children
