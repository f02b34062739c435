-- ===== src/Tests.antt =====
-- The theorems at concrete inputs, and runs of the definitions on small inputs.
mod Fixtures
mod NodeRuns
mod PeerRuns
mod Exchanges
mod Printed
mod Snapshots
mod Transfers
mod BlobRuns
mod ServerRuns
mod Signing
mod EventIds
mod Wire
mod Meshes
mod Disk
mod Starts
mod Processes
mod Prompts
mod Sessions
mod Shares
mod Launches
mod Presences
mod Publishing
