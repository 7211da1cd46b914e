-- ===== src/Lib.antt =====
-- Verification of microcluster: a cluster of daemons that share a dqlite database, trust one another by
-- certificate and admit new members by join tokens.
--
-- The parts, and the code that each models:
--   Extensions  internal/extensions/extensions.go: the registry of API extensions.
--               Names: the two regular expressions; Register: Register; Versions: IsSameVersion and
--               NewExtensionRegistryFromList; Json: what JSON and the database store.
--   Members     cluster/cluster_members.go and its mapper: the table of members, CoreClusterMember.
--               Deleting: what is left of it by DeleteCoreClusterMember.
--   Tokens      cluster/token_records.go and its mapper: the table of join tokens.
--   Upgrade     internal/db/update/cluster.go: what a starting member reads and writes of the table.
--               Check: the comparisons of waitUpgrade in internal/db/db.go, as one transaction each;
--               Awaiting: GetUpgradingClusterMembers of cluster/cluster_members.go.
--   Schema      internal/db/update/schema.go and internal/db/update/update.go: Ensure of the schema's
--               updates, in its transactions. Versions: the stored versions; Apply: the run of the updates
--               of one kind; Ensure: the whole, with Rows, Stages, Current and Checks on what it leaves.
--   Database    internal/db/dqlite.go and internal/db/db.go: Open, Bootstrap, Join, IsOpen,
--               Transaction and Stop. Upgrading: waitUpgrade, which joins Schema and Upgrade; Steps: the steps
--               of Open between which Stop may run; Refinement: Join takes these steps as its
--               rounds answer.
--   Trust       internal/trust/remotes.go: Load, Add and Replace of the trust store, over a directory.
--   Fqdn        internal/utils/validation.go.
--   Join        internal/rest/resources/cluster.go: clusterPost, which checks the request, forwards it
--               to the leader or admits the member: its row from Members, its token from Tokens, its
--               remote into Trust, its extensions against those of the leader, its name by Fqdn.
--   Removal     internal/rest/resources/cluster.go: clusterMemberDelete, over the nodes of dqlite, the table
--               of Members and the remotes of Trust. Gone, Handover and TwoNodes are about the two ways
--               that it takes; Reset is resetClusterMember, which uses Stop of Database.
--   Listing     internal/rest/resources/cluster.go: clusterGet, by the status of Database and the marks of
--               Upgrade.
--   Heartbeat   internal/rest/resources/heartbeat.go: heartbeatPost and beginHeartbeat, which write the
--               rows of Members, replace the remotes of Trust and delete expired Tokens.
--   Recovery    internal/recover/recover.go: Changes is ValidateMemberChanges, TrustStore is
--               updateTrustStore, Unpack is MaybeUnpackRecoveryTarball over the state directory, and Quorum is
--               RecoverFromQuorumLoss.
--   Servers     internal/rest/resources/resources.go: ValidateEndpoints, by the paths of one server (Paths)
--               and all of them (Valid).
--   Access      rest/access/handlers.go: Authenticate and AllowAuthenticated. Endpoints: HandleEndpoint of
--               internal/rest/rest.go, by which every request reaches its handler; the daemon's state is
--               any type, and a handler is a function on it.
--   Issue       internal/rest/resources/tokens.go: the handlers that issue, list and delete tokens. Use
--               follows a token from tokensPost to clusterPost.
--   Config      internal/config/daemon.go: the configuration of a daemon and its file daemon.yaml.
--   Endpoints   internal/endpoints/endpoints.go: the listeners of a daemon by name.
--   Daemon      internal/daemon/daemon.go: the state of a daemon and its certificates. Listeners is
--               addCoreServers, addExtensionServers (Adding, Collected, Added) and UpdateServers (Stopping,
--               Updating). Setup and Start are StartAPI, which uses Servers, Endpoints, Trust and Database;
--               Serving, Starting, Announced and Entered are about what it leaves.
--   Control     internal/rest/resources/control.go: controlPost. Token is joinWithToken; Admitted puts it
--               together with clusterPost of Join at the leader, Failing is about what is undone.
--   Truststore  internal/rest/resources/truststore.go: trustPost and trustDelete, over Trust.
--   Settings    internal/rest/resources/daemon.go and internal/rest/resources/certificates.go:
--               daemonServersPut, over UpdateServers of Daemon, and clusterCertificatesPut.
-- Prelude holds Boolean tests, texts, maps, results and list lemmas that the parts share.
--
-- State is passed on: an operation returns the new state beside its result, also where it fails after
-- it has changed something. A text is the list of its bytes, a time is a number, and a table is the list
-- of its rows in the order of their ids. A SQL statement is what it does to the rows, its UNIQUE
-- constraints included. Recursion is structural, on lists and texts, so no fuel is needed.
--
-- Parameters stand for what is outside the repository: the yaml library (where the text of an address is not
-- read, the configuration is not loaded), the test on host names, the search in a slice, the check of a TLS
-- certificate, the parsers of addresses and certificates, the making of key pairs, the system's sockets and
-- files, the clock, the ids of new rows, and the replies of other members. A panic is an error of its own.
-- The rounds that dqlite goes through when it joins are a list, so the starting of a daemon may end
-- with no result, where it is still trying.
--
-- Not modelled: goroutines, locks and HTTP; the retries that the query package makes of a transaction;
-- what the SQL of a schema update does to the tables other than `schemas`, which is a parameter; the
-- sockets behind the listeners; the routers; Run and init of the daemon; the making of a recovery tarball;
-- generated filters; the example program.
pub mod Prelude
pub mod Extensions
pub mod Members
pub mod Upgrade
pub mod Trust
pub mod Tokens
pub mod Fqdn
pub mod Join
pub mod Access
pub mod Issue
pub mod Removal
pub mod Heartbeat
pub mod Recovery
pub mod Servers
pub mod Listing
pub mod Schema
pub mod Database
pub mod Endpoints
pub mod Config
pub mod Daemon
pub mod Control
pub mod Truststore
pub mod Settings
