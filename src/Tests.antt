-- ===== src/Tests.antt =====
-- The theorems at concrete inputs. The libraries that the program calls are instantiated by plain
-- lists: status conditions in ListConditions, sets of texts in ListSets.
mod ListConditions
mod ListSets
mod JobRuns
mod RegistryRuns
mod Cluster
mod CatalogRuns
mod SliceSort
mod ControllerRuns
mod RescanRuns
mod StorageRuns
mod AdmissionRuns
mod VulnerabilityRuns
mod WorkloadRuns
mod SbomRuns
